-- ===== src/ValueRange.antt =====
-- engine/constraint/value_range_validator.h and value_range_validator.cpp: the constraints of a type,
-- checked on the cells of a batch. A batch is an Arrow table, of which the code reads the number of
-- the rows and, by the name of a column, its cells.
mod Count
mod Examples
use synthgen_core.Prelude.{
  ℕ, zero, suc, ◌+◌, ◌-◌, Text, text, Bool, true, false, ◌||◌, Option, none, some, List, [], ◌∷◌,
  ◌++◌, length, ltb, ◌==◌, if◌then◌else◌,
}
use synthgen_core.Prelude.Int.{ℤ, pos, sub_ℕ}
use synthgen_core.Common.Result.{Result, ok, err, fail, invalid_argument, undefined_column}
use synthgen_core.Common.Types.{DataType, ColumnDef}
use synthgen_core.Common.Double.{Double}
use synthgen_core.Schema.{Schema, find_column}
use synthgen_core.Parser.State.{
  ConstraintItem, ConstraintOperator, between, greater_than, less_than, greater_equal, less_equal,
}

pub record ValidationFailure (F : Type 0) : Type 0 where
  pub row_index : ℕ
  pub column_name : Text
  pub actual_value : F
  pub expected_min : F
  pub expected_max : F
  pub constraint_name : Text

-- More cells may fail than there are rows, so `rows_passed` may be negative.
pub record ValidationResult (F : Type 0) : Type 0 where
  pub rows_checked : ℕ
  pub rows_passed : ℤ
  pub rows_failed : ℕ
  pub pass_rate : F
  pub failures : List (ValidationFailure F)

pub record ColumnValidationRule (F : Type 0) : Type 0 where
  pub column_name : Text
  pub type : DataType
  pub min_value : Option F
  pub max_value : Option F
  pub min_strict : Bool
  pub max_strict : Bool
  pub constraint_name : Text

-- The chunks of a column; a cell that is null is none.
pub data Cells (F : Type 0) : Type 0 where
  double_cells : List (List (Option F)) → Cells F
  int64_cells : List (List (Option ℤ)) → Cells F
  other_cells : Cells F

pub record Batch (F : Type 0) : Type 0 where
  pub num_rows : ℕ
  -- GetFieldIndex and column
  pub column : Text → Option (Cells F)

-- The conversions of the processor: of an int64_t to a double, and the division in `pass_rate`.
pub record Conversions (F : Type 0) : Type 0 where
  pub of_int : ℤ → F
  pub ratio : ℤ → ℕ → F
  pub one : F

-- `rows_failed` and `failures`
abbrev pub Found : Type 0 → Type 0
Found F = ℕ × List (ValidationFailure F)

module _ {F : Type 0} where
  unfoldable pub rule_of : ColumnDef F → ConstraintItem F → ColumnValidationRule F
  unfolding text
  rule_of col c =
      let rule : Option F → Option F → Bool → Bool → ColumnValidationRule F =
        λ lo hi min_strict max_strict. record {
          column_name = c.column_name;
          type = col.type;
          min_value = lo;
          max_value = hi;
          min_strict = min_strict;
          max_strict = max_strict;
          constraint_name = text "constraint";
        } in
      elim c.op [
        | between ↦ rule (some c.value_min) (some c.value_max) false false
        | greater_than ↦ rule (some c.value_min) none true false
        | greater_equal ↦ rule (some c.value_min) none false false
        | less_than ↦ rule none (some c.value_max) false true
        | less_equal ↦ rule none (some c.value_max) false false
      ]

  -- The constructor: the items on columns that the schema has.
  unfoldable pub make_rules : Schema F → List (ConstraintItem F) → List (ColumnValidationRule F)
  unfolding rule_of
  make_rules schema [] = []
  make_rules schema (c ∷ cs) =
      let rest = make_rules schema cs in
      elim (find_column schema c.column_name) [ none ↦ rest | some col ↦ rule_of col c ∷ rest ]

  abbrev pub value_or : Option F → F → F
  value_or none x = x
  value_or (some y) x = y

module _ {F : Type 0} ⦃d : Double F⦄ where
  -- a <= b is b >= a, and a > b is b < a, for NaN too
  unfoldable pub below_min : ColumnValidationRule F → F → Bool
  below_min rule value = elim rule.min_value [
    | none ↦ false
    | some lo ↦ if rule.min_strict then d.ge lo value else d.lt value lo
  ]

  unfoldable pub above_max : ColumnValidationRule F → F → Bool
  above_max rule value = elim rule.max_value [
    | none ↦ false
    | some hi ↦ if rule.max_strict then d.ge value hi else d.lt hi value
  ]

  unfoldable pub fails : ColumnValidationRule F → F → Bool
  unfolding below_min above_max
  fails rule value = below_min rule value || above_max rule value

  abbrev pub failure_at : ColumnValidationRule F → ℕ → F → ValidationFailure F
  failure_at rule r value = record {
    row_index = r;
    column_name = rule.column_name;
    actual_value = value;
    expected_min = value_or rule.min_value d.zero_value;
    expected_max = value_or rule.max_value d.zero_value;
    constraint_name = rule.constraint_name;
  }

  unfoldable pub note : ColumnValidationRule F → ℕ → F → Found F → Found F
  unfolding fails
  note rule r value (n, failures) =
      if fails rule value
      then (
        suc n,
        if ltb (length failures) 100 then failures ++ failure_at rule r value ∷ [] else failures,
      )
      else (n, failures)

  -- The loop over a chunk; `r` counts from the start of the chunk.
  unfoldable pub check_chunk :
      {A : Type 0} → (A → F) → ColumnValidationRule F → ℕ → List (Option A) → Found F → Found F
  unfolding note
  check_chunk read rule r [] found = found
  check_chunk read rule r (none ∷ cells) found = check_chunk read rule (suc r) cells found
  check_chunk read rule r (some x ∷ cells) found =
      check_chunk read rule (suc r) cells (note rule r (read x) found)

  unfoldable pub check_chunks :
      {A : Type 0} → (A → F) → ColumnValidationRule F → List (List (Option A)) → Found F → Found F
  unfolding check_chunk
  check_chunks read rule [] found = found
  check_chunks read rule (chunk ∷ chunks) found =
      check_chunks read rule chunks (check_chunk read rule 0 chunk found)

  module _ (conv : Conversions F) where
    unfoldable pub check_column : ColumnValidationRule F → Cells F → Found F → Found F
    unfolding check_chunks
    check_column rule (double_cells chunks) found = check_chunks (λ x. x) rule chunks found
    check_column rule (int64_cells chunks) found = check_chunks conv.of_int rule chunks found
    check_column rule other_cells found = found

    -- The loop over the rules.
    unfoldable pub check_rules :
        List (ColumnValidationRule F) → Batch F → Found F → Result (Found F)
    unfolding check_column text
    check_rules [] batch found = ok found
    check_rules (rule ∷ rules) batch found = elim (batch.column rule.column_name) [
      | none ↦
          fail undefined_column (text "Column not found in batch: " ++ rule.column_name)
            (text "validator")
      | some cells ↦ check_rules rules batch (check_column rule cells found)
    ]

    unfoldable pub validated : ℕ → Result (Found F) → Result (ValidationResult F)
    validated num_rows (err e) = err e
    validated num_rows (ok (n, failures)) = ok (record {
      rows_checked = num_rows;
      rows_passed = sub_ℕ num_rows n;
      rows_failed = n;
      pass_rate = conv.ratio (sub_ℕ num_rows n) num_rows;
      failures = failures;
    })

    -- none is the null pointer.
    unfoldable pub validate_batch :
        List (ColumnValidationRule F) → Option (Batch F) → Result (ValidationResult F)
    unfolding check_rules validated text
    validate_batch rules none =
        fail invalid_argument (text "batch must not be null") (text "validator")
    validate_batch rules (some batch) =
        if batch.num_rows == 0
        then ok (record {
          rows_checked = 0;
          rows_passed = pos 0;
          rows_failed = 0;
          pass_rate = conv.one;
          failures = [];
        })
        else validated batch.num_rows (check_rules rules batch (0, []))
