-- ===== src/Version/Walk.antt =====
-- The walk of `has_cycle` and its rounds, on any chain.
use synthgen_core.Prelude.{
  ℕ, zero, suc, ◌<◌, ◌≤◌, Text, text_eq_iff, text_eq-false, text_mem, Bool, false, not, ◌≡◌, ◌≢◌,
  none, some, List, [], ◌∷◌, arith, length, filter, Option-cases, Bool-cases, inl, inr,
  length-filter-le,
}
use synthgen_core.Prelude.Dict.{Dict, find}
use synthgen_core.Version.{ModelVersion, ModelVersionChain, walk, has_cycle}

module _ {F : Type 0} where
  -- The entries whose keys were not visited.
  abbrev unvisited : List Text → Dict (ModelVersion F) → ℕ
  unvisited visited m = length (filter (λ e. not (text_mem e.0 visited)) m)

  unvisited-le :
      (c : Text) (visited : List Text) (m : Dict (ModelVersion F))
      → unvisited (c ∷ visited) m ≤ unvisited visited m
  unfolding text_mem
  unvisited-le c visited [] = omega arith
  unvisited-le c visited ((k, v) ∷ m) = ground (arith, unvisited-le c visited m)

  unvisited-lt :
      (c : Text) (visited : List Text) (m : Dict (ModelVersion F)) (v : ModelVersion F)
      → find c m ≡ some v
      → text_mem c visited ≡ false
      → unvisited (c ∷ visited) m < unvisited visited m
  unfolding text_mem find
  unvisited-lt c visited [] v e h = cc
  unvisited-lt c visited ((k, w) ∷ m) v e h = ground (
    arith,
    unvisited-le c visited m,
    unvisited-lt c visited m v,
    text_eq_iff k c,
    text_eq_iff c k,
  )

  pub walk-up :
      (f : ℕ) (m : Dict (ModelVersion F)) (new_id : Text) (visited : List Text) (current : Text)
      (v : ModelVersion F)
      → find current m ≡ some v
      → current ≢ []
      → current ≢ new_id
      → text_mem current visited ≡ false
      → walk (suc f) m new_id visited current
        ≡ walk f m new_id (current ∷ visited) v.parent_version_id
  unfolding walk
  walk-up f m new_id visited current v e nonempty other new =
      rw (text_eq-false current [] nonempty, text_eq-false current new_id other, new, e)

  walk-ne-none :
      (f : ℕ) (m : Dict (ModelVersion F)) (new_id : Text) (visited : List Text) (current : Text)
      → unvisited visited m < f
      → walk f m new_id visited current ≢ none
  unfolding walk
  walk-ne-none zero m new_id visited current h = absurd (omega arith)
  walk-ne-none (suc f) m new_id visited current h = elim (Option-cases (find current m)) [
    | inl e ↦ rw e (ground arith)
    | inr (v, e) ↦ elim (Bool-cases (text_mem current visited)) [
      | inl seen ↦ rw seen (ground arith)
      | inr new ↦
          let smaller = unvisited-lt current visited m v e new in
          let rest =
            walk-ne-none f m new_id (current ∷ visited) v.parent_version_id (omega arith) in
          rw (e, new) (ground arith)
    ]
  ]

  -- On every chain, cyclic or not, the walk of `has_cycle` ends with an answer within its rounds,
  -- one for each version and one more, and `has_cycle` returns that answer.
  pub has_cycle-walk :
      (chain : ModelVersionChain F) (new_id parent_id : Text)
      → (b : Bool) × (walk (suc (length chain.versions)) chain.versions new_id [] parent_id
          ≡ some b)
        × (has_cycle chain new_id parent_id ≡ b)
  unfolding has_cycle
  has_cycle-walk chain new_id parent_id =
      elim (Option-cases (walk (suc (length chain.versions)) chain.versions new_id [] parent_id)) [
        | inl e ↦ absurd (ends e)
        | inr (b, e) ↦ (b, e, rw (e, has_cycle))
      ]
    where
      ends : walk (suc (length chain.versions)) chain.versions new_id [] parent_id ≢ none
      ends =
          walk-ne-none (suc (length chain.versions)) chain.versions new_id [] parent_id
            (omega (arith, length-filter-le (λ e. not (text_mem e.0 [])) chain.versions))
