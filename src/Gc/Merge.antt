-- ===== src/Gc/Merge.antt =====
-- The version that `merge_versions` builds from the compacted ones.
use synthgen_core.Prelude.{
  Text, text_eq, true, false, ◌≡◌, refl, sym, ap, ◌∙◌, Option, none, some, List, [], ◌∷◌, ◌++◌, All,
  arith, Bool-cases, ◌⊎◌, if◌then◌else◌, inl, inr,
}
use mathlib.Core.List.{Mem, mem-cons_self, mem-cons_of_mem}
use synthgen_core.Prelude.Dict.{Dict, find, insert, find-insert, find-nil}
use synthgen_core.Prelude.Int.{ℤ, pos, negsuc, ◌+ℤ◌, +ℤ_assoc}
use synthgen_core.Common.Double.{Double}
use synthgen_core.Version.{ModelVersion}
use synthgen_core.Gc.{merge_metadata, min_double, min_fidelity, total_rows, merged_metadata, merged}

-- The value that the last entry for a key gives it.
abbrev pub latest : Text → Dict Text → Option Text
latest k [] = none
latest k ((j, val) ∷ m) = elim (latest k m) [
  | some w ↦ some w
  | none ↦ if text_eq j k then some val else none
]

-- What `latest` gives, or else the value from before.
abbrev or_before : Option Text → Option Text → Option Text
or_before (some w) before = some w
or_before none before = before

or_before-none : (later : Option Text) → or_before later none ≡ later
or_before-none none = refl
or_before-none (some w) = refl

find-merge_metadata :
    (k : Text) (base m : Dict Text)
    → find k (merge_metadata base m) ≡ or_before (latest k m) (find k base)
unfolding merge_metadata
find-merge_metadata k base [] = refl
find-merge_metadata k base ((j, val) ∷ m) =
    find-merge_metadata k (insert j val base) m ∙ at (latest k m)
  where
    at :
        (later : Option Text)
        → or_before later (find k (insert j val base))
          ≡ or_before
              (elim later [ some w ↦ some w | none ↦ if text_eq j k then some val else none ])
              (find k base)
    at (some w) = refl
    at none = ground (arith, find-insert j k val base)

latest-append :
    (k : Text) (m n : Dict Text) → latest k (m ++ n) ≡ or_before (latest k n) (latest k m)
latest-append k [] n = ground arith
latest-append k ((j, val) ∷ m) n = ground (arith, latest-append k m n)

add_zero : (x : ℤ) → x +ℤ pos 0 ≡ x
unfolding ◌+ℤ◌
add_zero (pos n) = ground arith
add_zero (negsuc n) = ground arith

pos_add : (x : ℤ) → pos 0 +ℤ x ≡ x
unfolding ◌+ℤ◌
pos_add (pos n) = ground arith
pos_add (negsuc n) = ground arith

module _ {F : Type 0} where
  -- The entries of all the versions, in order.
  abbrev pub entries : List (ModelVersion F) → Dict Text
  entries [] = []
  entries (v ∷ vs) = v.custom_metadata ++ entries vs

  -- The sum of the training rows, from the last version on.
  abbrev pub rows_of : List (ModelVersion F) → ℤ
  rows_of [] = pos 0
  rows_of (v ∷ vs) = v.training_rows +ℤ rows_of vs

module _ {F : Type 0} ⦃d : Double F⦄ where
  total_rows-rows_of : (n : ℤ) (vs : List (ModelVersion F)) → total_rows n vs ≡ n +ℤ rows_of vs
  unfolding total_rows
  total_rows-rows_of n [] = sym (add_zero n)
  total_rows-rows_of n (v ∷ vs) =
      total_rows-rows_of (n +ℤ v.training_rows) vs ∙ +ℤ_assoc n v.training_rows (rows_of vs)

  find-merged_metadata :
      (k : Text) (base : Dict Text) (vs : List (ModelVersion F))
      → find k (merged_metadata base vs) ≡ or_before (latest k (entries vs)) (find k base)
  unfolding merged_metadata
  find-merged_metadata k base [] = refl
  find-merged_metadata k base (v ∷ vs) =
      rw
        (
          find-merged_metadata k (merge_metadata base v.custom_metadata) vs,
          find-merge_metadata k base v.custom_metadata,
          latest-append k v.custom_metadata (entries vs),
        )
        (at (latest k (entries vs)))
    where
      at :
          (later : Option Text)
          → or_before later (or_before (latest k v.custom_metadata) (find k base))
            ≡ or_before (or_before later (latest k v.custom_metadata)) (find k base)
      at (some w) = refl
      at none = refl

  -- No version has a lower score than `m`.
  abbrev pub Lowest : F → List (ModelVersion F) → Type 0
  Lowest m vs = All (λ v. d.lt v.fidelity_score m ≡ false) vs

  module _ (asym : (x y : F) → d.lt x y ≡ true → d.lt y x ≡ false)
      (trans : (x y z : F) → d.lt x y ≡ false → d.lt y z ≡ false → d.lt x z ≡ false) where
    irrefl : (x : F) → d.lt x x ≡ false
    irrefl x = ground (arith, asym x x)

    min_double-le :
        (a b : F) → (d.lt a (min_double a b) ≡ false) × (d.lt b (min_double a b) ≡ false)
    min_double-le a b = ground (arith, asym b a, irrefl a, irrefl b)

    min_fidelity-le :
        (m : F) (vs : List (ModelVersion F))
        → (d.lt m (min_fidelity m vs) ≡ false) × Lowest (min_fidelity m vs) vs
    unfolding min_fidelity
    min_fidelity-le m [] = (irrefl m, tt)
    min_fidelity-le m (v ∷ vs) =
        let low : F = min_double m v.fidelity_score in
        let least : F = min_fidelity low vs in
        let (below, least_rest) = min_fidelity-le low vs in
        let (le_m, le_v) = min_double-le m v.fidelity_score in
        (trans m low least le_m below, (trans v.fidelity_score low least le_v below, least_rest))

    min_fidelity-mem :
        (m : F) (vs : List (ModelVersion F))
        → (min_fidelity m vs ≡ m)
          ⊎ ((v : ModelVersion F) × Mem v vs × (min_fidelity m vs ≡ v.fidelity_score))
    unfolding min_fidelity
    min_fidelity-mem m [] = inl refl
    min_fidelity-mem m (v ∷ vs) = elim (min_fidelity-mem (min_double m v.fidelity_score) vs) [
      | inr (w, mem, e) ↦ inr (w, mem-cons_of_mem _ mem, e)
      | inl e ↦ elim (Bool-cases (d.lt v.fidelity_score m)) [
        | inl less ↦ inr (v, mem-cons_self, ground (arith, e))
        | inr more ↦ inl (ground (arith, e))
      ]
    ]

    -- Where the order of the scores is asymmetric and its negation is transitive, as without a NaN:
    -- the merged version has the rows of all the versions together, a score that is the score of
    -- one of them and that none is below, and under each key of the metadata the value that the
    -- last version with the key gives it.
    pub merged_lem :
        (earliest : ModelVersion F) (rest : List (ModelVersion F))
        → let v = merged earliest rest in
          (v.training_rows ≡ rows_of (earliest ∷ rest))
          × Lowest v.fidelity_score (earliest ∷ rest)
          × ((w : ModelVersion F) × Mem w (earliest ∷ rest) × (v.fidelity_score ≡ w.fidelity_score))
          × ((k : Text) → find k v.custom_metadata ≡ latest k (entries (earliest ∷ rest)))
    unfolding merged
    merged_lem earliest rest = (
      total_rows-rows_of (pos 0) (earliest ∷ rest) ∙ pos_add (rows_of (earliest ∷ rest)),
      (min_fidelity-le earliest.fidelity_score (earliest ∷ rest)).1,
      elim (min_fidelity-mem earliest.fidelity_score (earliest ∷ rest)) [
        | inl e ↦ (earliest, mem-cons_self, e)
        | inr found ↦ found
      ],
      λ k.
          find-merged_metadata k [] (earliest ∷ rest)
          ∙ ap (or_before (latest k (entries (earliest ∷ rest)))) (find-nil k)
          ∙ or_before-none (latest k (entries (earliest ∷ rest))),
    )
