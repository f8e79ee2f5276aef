-- ===== src/Gc/Examples.antt =====
-- The theorems at a chain of three versions.
use synthgen_core.Prelude.{
  ℕ, Text, text, text_eq, true, false, ◌≡◌, ◌||◌, List, [], ◌∷◌, arith, ltb, if◌then◌else◌,
}
use mathlib.Core.List.{Mem}
use synthgen_core.Prelude.Dict.{find}
use synthgen_core.Prelude.Int.{pos}
use synthgen_core.Common.Sample.{whole}
use synthgen_core.Version.{ModelVersion, Reading, init}
use synthgen_core.Version.Keeps.{Call, run}
use synthgen_core.Gc.{
  ProtectionChecker, GcCompactor, is_protected, is_anchored, is_snapshot_referenced,
  add_snapshot_ref, anchor, remove_snapshot_ref, unanchor, merged,
}
use synthgen_core.Gc.Protection.{is_protected-changes}
use synthgen_core.Gc.Merge.{merged_lem, rows_of, Lowest, entries, latest}

abbrev checker : ProtectionChecker
checker = record { snapshot_refs = text "a" ∷ []; anchored = text "a" ∷ text "b" ∷ [] }

is_protected-changes_example :
    (is_protected (add_snapshot_ref (text "a") checker) (text "b")
      ≡ (text_eq (text "a") (text "b") || is_protected checker (text "b")))
    × (is_protected (anchor (text "a") checker) (text "b")
        ≡ (text_eq (text "a") (text "b") || is_protected checker (text "b")))
    × (is_protected (remove_snapshot_ref (text "a") checker) (text "b") ≡ (
        if text_eq (text "a") (text "b")
        then is_anchored checker (text "b")
        else is_protected checker (text "b")))
    × (is_protected (unanchor (text "a") checker) (text "b") ≡ (
        if text_eq (text "a") (text "b")
        then is_snapshot_referenced checker (text "b")
        else is_protected checker (text "b")))
is_protected-changes_example = is_protected-changes checker (text "a") (text "b")

abbrev scored : ℕ → ℕ → ModelVersion ℕ
scored score rows = record {
  version_id = [];
  model_name = [];
  parent_version_id = [];
  created_at = 0;
  created_by = [];
  is_immutable = false;
  training_data_range = [];
  fidelity_score = score;
  training_rows = pos rows;
  custom_metadata = (text "site", text "north") ∷ [];
}

ltb_asym : (x y : ℕ) → ltb x y ≡ true → ltb y x ≡ false
ltb_asym x y h = ground (arith, h)

ltb_trans : (x y z : ℕ) → ltb x y ≡ false → ltb y z ≡ false → ltb x z ≡ false
ltb_trans x y z h k = ground (arith, h, k)

merged_lem_example :
    let v = merged (scored 8 100) (scored 5 50 ∷ []) in
    (v.training_rows ≡ rows_of (scored 8 100 ∷ scored 5 50 ∷ []))
    × Lowest v.fidelity_score (scored 8 100 ∷ scored 5 50 ∷ [])
    × ((w : ModelVersion ℕ) × Mem w (scored 8 100 ∷ scored 5 50 ∷ [])
        × (v.fidelity_score ≡ w.fidelity_score))
    × ((k : Text) → find k v.custom_metadata ≡ latest k (entries (scored 8 100 ∷ scored 5 50 ∷ [])))
merged_lem_example = merged_lem ltb_asym ltb_trans (scored 8 100) (scored 5 50 ∷ [])

abbrev at : ℕ → Reading
at t = record { system_ticks = t; steady_us = t; random = 7 }

abbrev calls : List (Call ℕ)
calls =
    record { model_name = text "wind"; parent = []; metadata = scored 8 100; now = at 1 }
    ∷ record { model_name = text "wind"; parent = []; metadata = scored 5 50; now = at 2 }
    ∷ record { model_name = text "wind"; parent = []; metadata = scored 9 10; now = at 3 }
    ∷ []

abbrev compactor : GcCompactor ℕ
compactor = record {
  chain = run init calls;
  checker = checker;
  config = record { keep_recent_n = pos 1; auto_compact_enabled = false };
  in_progress = false;
}
