-- ===== src/Common/Types.antt =====
-- common/types.h. `F` is the type of doubles.
use synthgen_core.Prelude.{Text, Bool, true, false, Option, List}

pub data DataType : Type 0 where
  float int datetime string enum : DataType

abbrev pub same_type : DataType → DataType → Bool
same_type float float = true
same_type int int = true
same_type datetime datetime = true
same_type string string = true
same_type enum enum = true
same_type _ _ = false

pub record ColumnDef (F : Type 0) : Type 0 where
  pub name : Text
  pub type : DataType
  pub not_null : Bool
  pub is_order : Bool
  pub range_min : Option F
  pub range_max : Option F
  pub enum_values : List Text
