-- ===== src/Schema/Columns.antt =====
-- `find_column` and `column_index` of a schema.
use synthgen_core.Prelude.{
  ℕ, zero, suc, ◌+◌, Text, text_eq, text_eq_iff, false, ◌≡◌, ◌≢◌, refl, ◌⊎◌, inl, inr, none, some,
  List, [], ◌∷◌, arith, All, get_elem?, take, Bool-cases,
}
use synthgen_core.Prelude.Int.{ℤ, pos, negsuc}
use synthgen_core.Common.Types.{ColumnDef}
use synthgen_core.Schema.{Schema, find_in, find_column, index_from, column_index}

module _ {F : Type 0} where
  abbrev pub NotNamed : Text → ColumnDef F → Type 0
  NotNamed name c = c.name ≢ name

  -- The column `c` at place `k` is the first with this name.
  abbrev pub IsFirst : Text → List (ColumnDef F) → ℕ → ColumnDef F → Type 0
  IsFirst name cs k c =
      (get_elem? cs k ≡ some c) × (c.name ≡ name) × All (NotNamed name) (take k cs)

  -- What both searches find in a list whose first place has the index `i`.
  abbrev Found : ℕ → Text → List (ColumnDef F) → Type 0
  Found i name cs =
      ((find_in name cs ≡ none) × (index_from i name cs ≡ negsuc 0) × All (NotNamed name) cs)
      ⊎ ((k : ℕ) × (c : ColumnDef F) × (find_in name cs ≡ some c)
          × (index_from i name cs ≡ pos (i + k))
          × IsFirst name cs k c)

  Found-all : (i : ℕ) (name : Text) (cs : List (ColumnDef F)) → Found i name cs
  unfolding find_in index_from
  Found-all i name [] = inl (refl, refl, tt)
  Found-all i name (c ∷ cs) = elim (Bool-cases (text_eq c.name name)) [
    | inl e ↦ inr (zero, c, rw e, rw e (here i), (refl, (text_eq_iff c.name name).0 e, tt))
    | inr e ↦ elim (Found-all (suc i) name cs) [
      | inl (f, g, all) ↦ inl (rw e f, rw e g, (differs e, all))
      | inr (k, d, f, g, (at, named, before)) ↦
          inr (suc k, d, rw e f, rw e (rw g (later i k)), (at, named, (differs e, before)))
    ]
  ]
    where
      here : (i : ℕ) → ◌≡◌ {A = ℤ} (pos i) (pos (i + 0))
      here i = ground arith

      later : (i k : ℕ) → ◌≡◌ {A = ℤ} (pos (suc i + k)) (pos (i + suc k))
      later i k = ground arith

      differs : text_eq c.name name ≡ false → c.name ≢ name
      differs e = ground (arith, text_eq_iff c.name name)

  -- Either no column has the name, `find_column` finds nothing and `column_index` is -1; or both
  -- find the first column of that name, `column_index` at its place.
  pub find_column-column_index :
      (s : Schema F) (name : Text)
      → ((find_column s name ≡ none)
          × (column_index s name ≡ negsuc 0)
          × All (NotNamed name) s.columns)
        ⊎ ((k : ℕ) × (c : ColumnDef F) × (find_column s name ≡ some c)
            × (column_index s name ≡ pos (0 + k))
            × IsFirst name s.columns k c)
  unfolding find_column column_index
  find_column-column_index s name = Found-all 0 name s.columns
