-- ===== src/Prelude/Dict.antt =====
-- `std::map` and `std::unordered_map` from texts, as the list of the entries in the order of the
-- keys, which is the order in which a `std::map` is iterated. No code modelled here depends on the
-- order of an `unordered_map`.
use Prim.Native.Nat.{suc}
use mathlib.Core.Path.{◌≡◌, refl}
use mathlib.Core.Option.{Option, none, some}
use mathlib.Core.List.{List, [], ◌∷◌}
use native.Mathlib.Omega.{arith}
use synthgen_core.Prelude.Tests.{if◌then◌else◌}
use synthgen_core.Prelude.Lists.{length}
use synthgen_core.Prelude.Texts.{Text, text_eq, text_lt, text_eq_iff}

abbrev pub Dict {ℓ} : Type ℓ → Type ℓ
Dict V = List (Text × V)

module _ {ℓ} {V : Type ℓ} where
  -- m.find(k)
  unfoldable pub find : Text → Dict V → Option V
  find k [] = none
  find k ((j, v) ∷ m) = let rest = find k m in if text_eq j k then some v else rest

  -- m[k] = v
  unfoldable pub insert : Text → V → Dict V → Dict V
  insert k v [] = (k, v) ∷ []
  insert k v ((j, w) ∷ m) =
      let rest = insert k v m in
      if text_eq j k then (k, v) ∷ m else if text_lt k j then (k, v) ∷ (j, w) ∷ m else (j, w) ∷ rest

  pub find-nil : (k : Text) → find k [] ≡ none
  unfolding find
  find-nil k = refl

  pub find-insert :
      (k j : Text) (v : V) (m : Dict V)
      → find j (insert k v m) ≡ (if text_eq k j then some v else find j m)
  unfolding find insert
  find-insert k j v [] = refl
  find-insert k j v ((i, w) ∷ m) =
      ground (arith, text_eq_iff i k, text_eq_iff i j, text_eq_iff k j, find-insert k j v m)

  pub find-insert_self : (k : Text) (v : V) (m : Dict V) → find k (insert k v m) ≡ some v
  find-insert_self k v m = ground (arith, find-insert k k v m, text_eq_iff k k)

  pub length-insert_new :
      (k : Text) (v : V) (m : Dict V) → find k m ≡ none → length (insert k v m) ≡ suc (length m)
  unfolding find insert
  length-insert_new k v [] h = refl
  length-insert_new k v ((j, w) ∷ m) h = ground (arith, length-insert_new k v m)
