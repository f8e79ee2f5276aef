-- ===== src/Schema/Validate.antt =====
-- `Schema::validate` against a description of the schemas that it accepts.
use synthgen_core.Prelude.{
  Text, text_eq_iff, text_mem, false, ◌≡◌, ◌≢◌, ◌↔◌, refl, Option, none, some, List, [], ◌∷◌, arith,
  All, Pairs, All-map, map, if_rule, All-of, if_rule,
}
use synthgen_core.Common.Result.{ok}
use synthgen_core.Common.Types.{ColumnDef, enum}
use synthgen_core.Common.Double.{Double}
use synthgen_core.Schema.{
  Schema, find_in, find_column, order_names, check_orders, check_range, check_enum, check_columns,
  validate, DefineTypeStmt, copy_column, build,
}

module _ {F : Type 0} ⦃d : Double F⦄ where
  -- A range with both ends: neither is NaN, and the lower is not at or above the upper.
  abbrev pub RangeFits : Option F → Option F → Type 0
  RangeFits (some lo) (some hi) =
      (d.is_nan lo ≡ false) × (d.is_nan hi ≡ false) × (d.ge lo hi ≡ false)
  RangeFits _ _ = Unit

  abbrev pub ColumnFits : ColumnDef F → Type 0
  ColumnFits c =
      (c.name ≢ []) × RangeFits c.range_min c.range_max × (c.type ≡ enum → c.enum_values ≢ [])

  abbrev pub NamesApart : ColumnDef F → ColumnDef F → Type 0
  NamesApart a b = a.name ≢ b.name

  pub record IsWellFormed (s : Schema F) : Type 0 where
    pub named : s.type_name ≢ []
    pub inhabited : s.columns ≢ []
    pub columns_fit : All ColumnFits s.columns
    pub names_apart : Pairs NamesApart s.columns

  check_range_iff :
      (name : Text) (lo hi : Option F) → (check_range name lo hi ≡ ok tt) ↔ RangeFits lo hi
  unfolding check_range
  check_range_iff name none hi = (λ _. tt, λ _. refl)
  check_range_iff name (some lo) none = (λ _. tt, λ _. refl)
  check_range_iff name (some lo) (some hi) = ground arith

  check_enum_iff : (c : ColumnDef F) → (check_enum c ≡ ok tt) ↔ (c.type ≡ enum → c.enum_values ≢ [])
  unfolding check_enum
  check_enum_iff c = ground arith

  -- No column of the list has a name that was seen.
  abbrev pub Unseen : List Text → ColumnDef F → Type 0
  Unseen seen c = text_mem c.name seen ≡ false

  pub Unseen-cons :
      (name : Text) (seen : List Text) (cs : List (ColumnDef F))
      → All (Unseen (name ∷ seen)) cs ↔ (All (λ c. name ≢ c.name) cs × All (Unseen seen) cs)
  unfolding text_mem
  Unseen-cons name seen [] = (λ _. (tt, tt), λ _. tt)
  Unseen-cons name seen (c ∷ cs) =
      let rest = Unseen-cons name seen cs in
      (
        λ h.
            let (ne, unseen) = rest.0 h.1 in
            (((λ e. clash e h.0), ne), (ground (arith, h.0), unseen)),
        λ h. (ground (arith, h.0.0, h.1.0, text_eq_iff name c.name), rest.1 (h.0.1, h.1.1)),
      )
    where
      clash : name ≡ c.name → text_mem c.name (name ∷ seen) ≡ false → ⊥
      clash e u = ground (arith, text_eq_iff name c.name)

  -- What the first loop accepts, over the columns that are left.
  abbrev Accepts : List Text → List (ColumnDef F) → Type 0
  Accepts seen cs = All ColumnFits cs × Pairs NamesApart cs × All (Unseen seen) cs

  check_columns_iff :
      (seen : List Text) (cs : List (ColumnDef F))
      → (check_columns seen cs ≡ ok tt) ↔ Accepts seen cs
  unfolding check_columns
  check_columns_iff seen [] = (λ _. (tt, tt, tt), λ _. refl)
  check_columns_iff seen (c ∷ cs) = ground (
    arith,
    text_eq_iff c.name [],
    check_range_iff c.name c.range_min c.range_max,
    check_enum_iff c,
    check_columns_iff (c.name ∷ seen) cs,
    Unseen-cons c.name seen cs,
  )

-- The last loop of `validate` never finds a missing column.
module _ {F : Type 0} where
  -- A column of this name stands in the list.
  abbrev Holds : List (ColumnDef F) → Text → Type 0
  Holds cs name = find_in name cs ≢ none

  Holds-cons :
      (c : ColumnDef F) (cs : List (ColumnDef F)) (n : Text) → Holds cs n → Holds (c ∷ cs) n
  unfolding find_in
  Holds-cons c cs n h = ground arith

  Holds-self : (c : ColumnDef F) (cs : List (ColumnDef F)) → Holds (c ∷ cs) c.name
  unfolding find_in
  Holds-self c cs = ground (arith, text_eq_iff c.name c.name)

  order_names-Holds : (cs : List (ColumnDef F)) → All (Holds cs) (order_names cs)
  unfolding order_names
  order_names-Holds [] = tt
  order_names-Holds (c ∷ cs) =
      let rest =
        All-map {P = Holds cs} {Q = Holds (c ∷ cs)} (Holds-cons c cs) (order_names cs)
          (order_names-Holds cs) in
      if_rule (All (Holds (c ∷ cs))) c.is_order (λ _. (Holds-self c cs, rest)) (λ _. rest)

  pub check_orders-ok :
      (s : Schema F) (names : List Text)
      → All (Holds s.columns) names
      → check_orders s names ≡ ok tt
  unfolding check_orders find_column
  check_orders-ok s [] h = refl
  check_orders-ok s (n ∷ ns) h = ground (arith, h.0, check_orders-ok s ns h.1)

module _ {F : Type 0} ⦃d : Double F⦄ where
  validate_at :
      (name : Text) (cs : List (ColumnDef F))
      → let s : Schema F = record { type_name = name; columns = cs } in
        (validate s ≡ ok tt) ↔ IsWellFormed s
  unfolding validate text_mem
  validate_at name [] = ground (arith, text_eq_iff name [])
  validate_at name (c ∷ cs) = ground (
    arith,
    text_eq_iff name [],
    check_columns_iff [] (c ∷ cs),
    check_orders-ok (record { type_name = name; columns = c ∷ cs }) (order_names (c ∷ cs))
        (order_names-Holds (c ∷ cs)),
    All-of (Unseen []) (c ∷ cs) (λ x. refl),
  )

  -- `validate` accepts exactly the schemas with a type name, at least one column, column names
  -- that are not empty and differ from one another, ranges with both ends that are in order and
  -- hold no NaN, and values for every ENUM column.
  pub validate_iff : (s : Schema F) → (validate s ≡ ok tt) ↔ IsWellFormed s
  validate_iff s = validate_at s.type_name s.columns

  map-copy_column : (cs : List (ColumnDef F)) → map copy_column cs ≡ cs
  unfolding copy_column
  map-copy_column [] = refl
  map-copy_column (c ∷ cs) = rw (map-copy_column cs)

  -- A type definition builds a schema exactly when the schema with its name and its columns is
  -- well formed, and the schema built is that one.
  pub build_iff :
      (stmt : DefineTypeStmt F) (s : Schema F)
      → (build stmt ≡ ok s)
        ↔ ((s.type_name ≡ stmt.type_name) × (s.columns ≡ stmt.columns) × IsWellFormed s)
  unfolding build
  build_iff stmt s =
      simp map-copy_column (
        ground
          (arith, validate_iff (record { type_name = stmt.type_name; columns = stmt.columns })))
