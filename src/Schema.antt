-- ===== src/Schema.antt =====
-- schema/: schemas, their validation, their construction from a parsed type, and the registry.
-- `F` is the type of doubles.
pub mod Validate
mod Columns
mod Registry
mod Examples
use synthgen_core.Prelude.{
  ℕ, zero, suc, ◌+◌, Text, text, text_eq, text_mem, Bool, true, false, not, ◌&&◌, ◌||◌, Option,
  none, some, List, [], ◌∷◌, ◌++◌, if◌then◌else◌, map,
}
use synthgen_core.Prelude.Dict.{Dict, find, insert}
use synthgen_core.Prelude.Int.{ℤ, pos, negsuc}
use synthgen_core.Common.Result.{
  Result, ok, fail, ◌>>◌, invalid_schema, invalid_column_name, duplicate_column_name, invalid_range,
  invalid_enum, undefined_column, duplicate_type_name, not_found,
}
use synthgen_core.Common.Types.{ColumnDef, DataType, enum, same_type}
use synthgen_core.Common.Double.{Double}

pub record Schema (F : Type 0) : Type 0 where
  pub type_name : Text
  pub columns : List (ColumnDef F)

-- parser/ast.h: the columns of a parsed type have the fields of `ColumnDef`
pub record DefineTypeStmt (F : Type 0) : Type 0 where
  pub type_name : Text
  pub columns : List (ColumnDef F)

module _ {F : Type 0} where
  unfoldable pub find_in : Text → List (ColumnDef F) → Option (ColumnDef F)
  find_in name [] = none
  find_in name (c ∷ cs) = let rest = find_in name cs in if text_eq c.name name then some c else rest

  unfoldable pub find_column : Schema F → Text → Option (ColumnDef F)
  find_column s name = find_in name s.columns

  -- the loop of `column_index` from index `i` on
  unfoldable pub index_from : ℕ → Text → List (ColumnDef F) → ℤ
  index_from i name [] = negsuc 0
  index_from i name (c ∷ cs) =
      let rest = index_from (suc i) name cs in if text_eq c.name name then pos i else rest

  unfoldable pub column_index : Schema F → Text → ℤ
  column_index s name = index_from 0 name s.columns

  unfoldable pub order_names : List (ColumnDef F) → List Text
  order_names [] = []
  order_names (c ∷ cs) = let rest = order_names cs in if c.is_order then c.name ∷ rest else rest

  unfoldable pub order_columns : Schema F → List Text
  unfolding order_names
  order_columns s = order_names s.columns

  -- the last loop of `validate`
  unfoldable pub check_orders : Schema F → List Text → Result (Unit {0})
  check_orders s [] = ok tt
  check_orders s (oc ∷ rest) =
      let more = check_orders s rest in
      elim (find_column s oc) [
        | none ↦ fail undefined_column (text "ORDER column not found: " ++ oc) []
        | some c ↦ more
      ]

abbrev pub is_empty {ℓ} : {A : Type ℓ} → List A → Bool
is_empty [] = true
is_empty (x ∷ xs) = false

module _ {F : Type 0} ⦃d : Double F⦄ where
  -- the tests of a range that has both ends
  unfoldable pub check_range : Text → Option F → Option F → Result (Unit {0})
  check_range name (some lo) (some hi) =
      if d.is_nan lo || d.is_nan hi
      then fail invalid_range (text "range_min/range_max must not be NaN for column: " ++ name) []
      else if d.ge lo hi
      then fail invalid_range (text "range_min must be less than range_max for column: " ++ name) []
      else ok tt
  check_range name _ _ = ok tt

  unfoldable pub check_enum : ColumnDef F → Result (Unit {0})
  check_enum col =
      if same_type col.type enum && is_empty col.enum_values
      then fail invalid_enum (text "ENUM column must have at least one value: " ++ col.name) []
      else ok tt

  -- the first loop of `validate`; `seen` holds the names of the columns before
  unfoldable pub check_columns : List Text → List (ColumnDef F) → Result (Unit {0})
  check_columns seen [] = ok tt
  check_columns seen (col ∷ cs) =
      let rest = check_columns (col.name ∷ seen) cs in
      if text_eq col.name []
      then fail invalid_column_name (text "Column name cannot be empty") []
      else if text_mem col.name seen
      then fail duplicate_column_name (text "Duplicate column name: " ++ col.name) []
      else (do check_range col.name col.range_min col.range_max; check_enum col; rest)

  unfoldable pub validate : Schema F → Result (Unit {0})
  unfolding order_columns
  validate s =
      if text_eq s.type_name []
      then fail invalid_schema (text "Schema type_name cannot be empty") []
      else elim s.columns [
        | [] ↦ fail invalid_schema (text "Schema must have at least one column") []
        | c ∷ cs ↦ (do check_columns [] (c ∷ cs); check_orders s (order_columns s))
      ]

  -- schema_builder.cpp: a column is copied field by field
  unfoldable pub copy_column : ColumnDef F → ColumnDef F
  copy_column c = record {
    name = c.name;
    type = c.type;
    not_null = c.not_null;
    is_order = c.is_order;
    range_min = c.range_min;
    range_max = c.range_max;
    enum_values = c.enum_values;
  }

  unfoldable pub build : DefineTypeStmt F → Result (Schema F)
  unfolding copy_column
  build stmt =
      let schema : Schema F = record {
        type_name = stmt.type_name;
        columns = map copy_column stmt.columns;
      } in
      do validate schema; ok schema

-- schema_registry.h and schema_registry.cpp
pub record SchemaRegistry (F : Type 0) : Type 0 where
  pub schemas : Dict (Schema F)

module _ {F : Type 0} where
  unfoldable pub has_schema : SchemaRegistry F → Text → Bool
  has_schema registry type_name = elim (find type_name registry.schemas) [
    | none ↦ false
    | some s ↦ true
  ]

  unfoldable pub get_schema : SchemaRegistry F → Text → Result (Schema F)
  get_schema registry type_name = elim (find type_name registry.schemas) [
    | none ↦ fail not_found (text "Type not found: " ++ type_name) []
    | some s ↦ ok s
  ]

  unfoldable pub register_schema :
      Schema F → SchemaRegistry F → Result (Unit {0}) × SchemaRegistry F
  unfolding has_schema
  register_schema schema registry =
      if has_schema registry schema.type_name
      then (
        fail duplicate_type_name (text "Type already registered: " ++ schema.type_name) [],
        registry,
      )
      else (ok tt, record { schemas = insert schema.type_name schema registry.schemas })
