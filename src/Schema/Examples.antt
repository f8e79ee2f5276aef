-- ===== src/Schema/Examples.antt =====
-- The theorems at a schema of two columns.
use synthgen_core.Prelude.{
  ℕ, ◌+◌, text, text_eq, text_mem, true, false, ◌≡◌, ◌↔◌, refl, ◌⊎◌, none, some, List, [], ◌∷◌, All,
  if◌then◌else◌,
}
use synthgen_core.Prelude.Int.{pos, negsuc}
use synthgen_core.Common.Result.{ok, FailsWith, duplicate_type_name}
use synthgen_core.Common.Types.{ColumnDef, datetime, float}
use synthgen_core.Common.Sample.{whole}
use synthgen_core.Schema.{
  Schema, DefineTypeStmt, SchemaRegistry, validate, build, find_column, column_index, has_schema,
  get_schema, register_schema, check_columns, check_range, check_enum, check_orders, find_in,
  order_names,
}
use synthgen_core.Schema.Validate.{IsWellFormed, validate_iff, build_iff}
use synthgen_core.Schema.Columns.{NotNamed, IsFirst, find_column-column_index}
use synthgen_core.Schema.Registry.{get_schema-register_schema}

abbrev columns : List (ColumnDef ℕ)
columns =
    record {
      name = text "at";
      type = datetime;
      not_null = true;
      is_order = true;
      range_min = none;
      range_max = none;
      enum_values = [];
    }
    ∷ record {
      name = text "speed";
      type = float;
      not_null = false;
      is_order = false;
      range_min = some 0;
      range_max = some 50;
      enum_values = [];
    }
    ∷ []

abbrev sensor_log : Schema ℕ
sensor_log = record { type_name = text "sensor_log"; columns = columns }

abbrev sensor_type : DefineTypeStmt ℕ
sensor_type = record { type_name = text "sensor_log"; columns = columns }

sensor_log_valid : validate sensor_log ≡ ok tt
unfolding validate check_columns check_range check_enum check_orders find_column find_in order_names
    text text_eq text_mem
sensor_log_valid = refl

validate_iff_example : (validate sensor_log ≡ ok tt) ↔ IsWellFormed sensor_log
validate_iff_example = validate_iff sensor_log

build_iff_example : (build sensor_type ≡ ok sensor_log) ↔ (
    (sensor_log.type_name ≡ sensor_type.type_name)
    × (sensor_log.columns ≡ sensor_type.columns)
    × IsWellFormed sensor_log)
build_iff_example = build_iff sensor_type sensor_log

find_column-column_index_example :
    ((find_column sensor_log (text "speed") ≡ none)
      × (column_index sensor_log (text "speed") ≡ negsuc 0)
      × All (NotNamed (text "speed")) sensor_log.columns)
    ⊎ ((k : ℕ) × (c : ColumnDef ℕ) × (find_column sensor_log (text "speed") ≡ some c)
        × (column_index sensor_log (text "speed") ≡ pos (0 + k))
        × IsFirst (text "speed") sensor_log.columns k c)
find_column-column_index_example = find_column-column_index sensor_log (text "speed")

abbrev empty : SchemaRegistry ℕ
empty = record { schemas = [] }

get_schema-register_schema_example :
    let (result, after) = register_schema sensor_log empty in
    ((has_schema empty sensor_log.type_name ≡ true)
      × FailsWith duplicate_type_name result
      × (after ≡ empty))
    ⊎ ((has_schema empty sensor_log.type_name ≡ false)
        × (result ≡ ok tt)
        × (get_schema after (text "other") ≡ (
            if text_eq sensor_log.type_name (text "other")
            then ok sensor_log
            else get_schema empty (text "other"))))
get_schema-register_schema_example = get_schema-register_schema sensor_log empty (text "other")
