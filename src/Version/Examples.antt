-- ===== src/Version/Examples.antt =====
-- The theorems at a chain of two models.
use synthgen_core.Prelude.{
  ℕ, suc, ◌^◌, ◌<◌, Text, text, text_eq, text_mem, Bool, false, ◌≡◌, ◌≢◌, refl, ◌⊎◌, some, List, [],
  ◌∷◌, arith, length,
}
use synthgen_core.Prelude.Dict.{find, insert}
use synthgen_core.Prelude.Hex.{to_hex}
use synthgen_core.Prelude.Int.{pos}
use synthgen_core.Common.Result.{Error, ok, err}
use synthgen_core.Version.{
  ModelVersion, ModelVersionChain, Reading, init, walk, has_cycle, generate_version_id,
  check_parent, new_version, push_version, store, create_version, get_version, list_versions,
  version_id_text,
}
use synthgen_core.Version.Walk.{has_cycle-walk}
use synthgen_core.Version.Invariant.{IsSound}
use synthgen_core.Version.Create.{IsParent, created, extended, create_version_lem}
use synthgen_core.Version.Keeps.{
  Call, perform, run, run-init-IsSound, get_version-run, Rooted, get_version-Rooted,
}
use synthgen_core.Version.Listing.{IsListing, list_versions-IsListing}

abbrev blank : ModelVersion ℕ
blank = record {
  version_id = [];
  model_name = [];
  parent_version_id = [];
  created_at = 0;
  created_by = [];
  is_immutable = false;
  training_data_range = [];
  fidelity_score = 8;
  training_rows = pos 100;
  custom_metadata = [];
}

abbrev at : ℕ → Reading
at t = record { system_ticks = t; steady_us = t; random = 7 }

abbrev first_id : Text
first_id = version_id_text 1 0 7

abbrev calls : List (Call ℕ)
calls =
    record { model_name = text "wind"; parent = []; metadata = blank; now = at 1 }
    ∷ record { model_name = text "wind"; parent = first_id; metadata = blank; now = at 2 }
    ∷ record { model_name = text "heat"; parent = first_id; metadata = blank; now = at 3 }
    ∷ []

abbrev one_call : List (Call ℕ)
one_call = record { model_name = text "wind"; parent = []; metadata = blank; now = at 1 } ∷ []

abbrev first_version : ModelVersion ℕ
unfolding new_version text_eq text
first_version = new_version first_id (text "wind") [] blank 1

run-init-IsSound_example : IsSound (run init calls)
run-init-IsSound_example = run-init-IsSound calls (omega arith)

has_cycle-walk_example :
    (b : Bool) × (walk
        (suc (length (run init calls).versions))
        (run init calls).versions
        (text "x")
        []
        first_id
      ≡ some b)
    × (has_cycle (run init calls) (text "x") first_id ≡ b)
has_cycle-walk_example = has_cycle-walk (run init calls) (text "x") first_id

one_version : get_version (run init one_call) first_id ≡ ok first_version
unfolding run perform create_version check_parent generate_version_id new_version has_cycle walk
    store push_version get_version init find insert version_id_text to_hex text text_eq text_mem
one_version = refl

one_counter : (run init one_call).counter ≡ 1
unfolding run perform create_version check_parent generate_version_id new_version has_cycle walk
    store push_version init find insert version_id_text to_hex text text_eq text_mem
one_counter = refl

get_version-run_example : get_version (run (run init one_call) calls) first_id ≡ ok first_version
get_version-run_example =
    get_version-run (run init one_call) calls first_id first_version
      (run-init-IsSound one_call (omega arith)) (omega (arith, one_counter)) one_version

get_version-Rooted_example : Rooted (run init one_call).versions first_id
get_version-Rooted_example =
    get_version-Rooted (run init one_call) (run-init-IsSound one_call (omega arith)) first_id
      first_version one_version

list_versions-IsListing_example :
    (vs : List (ModelVersion ℕ)) × (list_versions (run init calls) (text "wind") 100 ≡ ok vs)
    × IsListing (run init calls) (text "wind") 100 vs
list_versions-IsListing_example =
    list_versions-IsListing (run init calls) (run-init-IsSound calls (omega arith)) (text "wind")
      100

abbrev one : ModelVersionChain ℕ
one = run init one_call

one_sound : IsSound one
one_sound = run-init-IsSound one_call (omega arith)

one_room : one.counter < 2 ^ 64
one_room = omega (arith, one_counter)

create_version_lem_example :
    ((text "heat" ≢ [])
      × IsParent one (text "heat") first_id
      × (create_version (text "heat") first_id blank (at 9) one ≡ (
        ok (created one one_sound one_room (text "heat") first_id blank (at 9)),
        extended one one_sound one_room (text "heat") first_id blank (at 9),
      )))
    ⊎ ((¬ ((text "heat" ≢ []) × IsParent one (text "heat") first_id))
        × ((e : Error) × (create_version (text "heat") first_id blank (at 9) one ≡ (err e, one))))
create_version_lem_example =
    create_version_lem one one_sound one_room (text "heat") first_id blank (at 9)
