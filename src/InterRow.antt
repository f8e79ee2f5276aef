-- ===== src/InterRow.antt =====
-- engine/constraint/inter_row_engine.h and inter_row_engine.cpp: the rows of a batch that stand in the
-- right relation to the last row that passed. A batch is an Arrow table, of which the code reads the
-- number of the rows and, by the index of a column, the value in a row.
mod Chain
mod Examples
use synthgen_core.Prelude.{
  ℕ, zero, suc, ◌+◌, Text, text, text_eq, Bool, true, false, not, ◌&&◌, ◌||◌, Option, none, some,
  List, [], ◌∷◌, ◌++◌, length, ◌==◌, map, if◌then◌else◌,
}
use synthgen_core.Prelude.Int.{ℤ, pos, negsuc}
use synthgen_core.Prelude.Dict.{Dict, find, insert}
use synthgen_core.Common.Result.{
  Result, ok, err, fail, ◌>>◌, order_column_required, undefined_column, type_mismatch,
  invalid_delta,
}
use synthgen_core.Common.Types.{ColumnDef, DataType, float, int, same_type}
use synthgen_core.Common.Double.{Double}
use synthgen_core.Schema.{Schema, find_column, column_index, order_columns, is_empty}

pub data InterRowType : Type 0 where
  delta_max_of delta_min_of monotone_increase monotone_decrease : InterRowType

pub record InterRowConstraintDef (F : Type 0) : Type 0 where
  pub column_name : Text
  pub order_column : Text
  pub type : InterRowType
  pub delta_max : Option F
  pub delta_min : Option F

pub record InterRowState (F : Type 0) : Type 0 where
  pub last_value : Option F
  pub initialized : Bool
  pub column_name : Text

pub record RowBatch (F : Type 0) : Type 0 where
  pub num_rows : ℕ
  -- the value in a row of the column of an index, its chunks put together; the batch has the columns of
  -- the schema with a value in every row, since what the code reads beyond them is undefined
  pub value : ℕ → ℕ → F

-- `filtered_batch` is the rows of the batch that it has, and is not set where it has none; the
-- columns are rebuilt from these rows.
pub record InterRowResult (F : Type 0) : Type 0 where
  pub filtered_batch : List ℕ
  pub outgoing_states : List (InterRowState F)
  pub rows_passed : ℕ
  pub rows_filtered : ℕ

pub record InterRowEngine (F : Type 0) : Type 0 where
  pub schema : Schema F
  pub constraints : List (InterRowConstraintDef F)
  pub order_column : Text

abbrev engine_name : Text
unfolding text
engine_name = text "inter_row_engine"

abbrev first_name : List Text → Text
first_name [] = []
first_name (n ∷ ns) = n

module _ {F : Type 0} where
  -- The constructor: the first column of the schema that is an ORDER column.
  unfoldable pub make_engine : Schema F → List (InterRowConstraintDef F) → InterRowEngine F
  make_engine schema constraints = record {
    schema = schema;
    constraints = constraints;
    order_column = first_name (order_columns schema);
  }

  -- The constraints with the indices of their columns.
  unfoldable pub indexed :
      Schema F → List (InterRowConstraintDef F) → Result (List (InterRowConstraintDef F × ℕ))
  unfolding text
  indexed schema [] = ok []
  indexed schema (c ∷ cs) =
      let rest = indexed schema cs in
      elim (column_index schema c.column_name) [
        | negsuc n ↦
            fail undefined_column (text "Column index not found: " ++ c.column_name) engine_name
        | pos idx ↦ elim rest [ err e ↦ err e | ok infos ↦ ok ((c, idx) ∷ infos) ]
      ]

  -- `prev_values`: of the states that are set
  unfoldable pub prev_values : List (InterRowState F) → Dict F → Dict F
  prev_values [] m = m
  prev_values (s ∷ ss) m =
      let rest = prev_values ss in
      elim s.last_value [
        | none ↦ rest m
        | some v ↦ if s.initialized then rest (insert s.column_name v m) else rest m
      ]

  abbrev pub blank_state : InterRowConstraintDef F → InterRowState F
  blank_state c = record { last_value = none; initialized = false; column_name = c.column_name }

  abbrev pub empty_result : List (InterRowConstraintDef F) → InterRowResult F
  empty_result constraints = record {
    filtered_batch = [];
    outgoing_states = map blank_state constraints;
    rows_passed = 0;
    rows_filtered = 0;
  }

-- The last row that passed.
abbrev pub last_row : List ℕ → Option ℕ
last_row [] = none
last_row (i ∷ is) = elim (last_row is) [ none ↦ some i | some j ↦ some j ]

module _ {F : Type 0} ⦃d : Double F⦄ where
  -- The test of a delta, which must be there and above zero.
  unfoldable pub bad_delta : Option F → Bool
  bad_delta none = true
  bad_delta (some x) = d.ge d.zero_value x

  unfoldable pub check_delta : InterRowConstraintDef F → Result (Unit {0})
  unfolding bad_delta text
  check_delta c = elim c.type [
    | delta_max_of ↦
        if bad_delta c.delta_max
        then fail invalid_delta (text "delta_max must be > 0 for: " ++ c.column_name) engine_name
        else ok tt
    | delta_min_of ↦
        if bad_delta c.delta_min
        then fail invalid_delta (text "delta_min must be > 0 for: " ++ c.column_name) engine_name
        else ok tt
    | monotone_increase ↦ ok tt
    | monotone_decrease ↦ ok tt
  ]

  unfoldable pub check_constraints : Schema F → List (InterRowConstraintDef F) → Result (Unit {0})
  unfolding check_delta text
  check_constraints schema [] = ok tt
  check_constraints schema (c ∷ cs) =
      let rest = check_constraints schema cs in
      elim (find_column schema c.column_name) [
        | none ↦ fail undefined_column (text "Column not found: " ++ c.column_name) engine_name
        | some col ↦
            if not (same_type col.type float) && not (same_type col.type int)
            then fail type_mismatch
                (text "Inter-row constraint column must be numeric: " ++ c.column_name) engine_name
            else check_delta c >> rest
      ]

  unfoldable pub validate_constraints : InterRowEngine F → Result (Unit {0})
  unfolding check_constraints text
  validate_constraints engine =
      if is_empty engine.constraints
      then ok tt
      else if text_eq engine.order_column []
      then fail order_column_required
          (text "Inter-row constraints require an ORDER column in schema") engine_name
      else check_constraints engine.schema engine.constraints

  abbrev pub at_least_zero : Option F → F
  at_least_zero none = d.zero_value
  at_least_zero (some x) = x

  -- The distance is std::abs of the difference. The deltas are there after validate_constraints.
  module _ (distance : F → F → F) where
    unfoldable pub check_constraint : InterRowConstraintDef F → F → F → Bool
    check_constraint c current previous = elim c.type [
      | delta_max_of ↦ d.lt (distance current previous) (at_least_zero c.delta_max)
      | delta_min_of ↦ d.lt (at_least_zero c.delta_min) (distance current previous)
      | monotone_increase ↦ d.lt previous current
      | monotone_decrease ↦ d.lt current previous
    ]

    module _ (batch : RowBatch F) (prev : Dict F) where
      -- The value that a row is compared with: that of the last row that passed, or the incoming one.
      unfoldable pub previous_value : InterRowConstraintDef F → ℕ → Option ℕ → Option F
      previous_value c idx none = find c.column_name prev
      previous_value c idx (some j) = some (batch.value idx j)

      unfoldable pub passes_one : InterRowConstraintDef F → ℕ → ℕ → Option F → Bool
      unfolding check_constraint
      passes_one c idx i none = true
      passes_one c idx i (some previous) = check_constraint c (batch.value idx i) previous

      -- The loop over the constraints for row `i`.
      unfoldable pub row_passes : List (InterRowConstraintDef F × ℕ) → ℕ → Option ℕ → Bool
      unfolding previous_value passes_one
      row_passes [] i last = true
      row_passes ((c, idx) ∷ infos) i last =
          passes_one c idx i (previous_value c idx last) && row_passes infos i last

      -- The loop over `n` rows from row `i` on; `last` is `last_pass_idx`, which is the same for all
      -- the constraints. The rows that pass, and the number of the others.
      unfoldable pub passing_rows :
          List (InterRowConstraintDef F × ℕ) → ℕ → ℕ → Option ℕ → List ℕ × ℕ
      unfolding row_passes
      passing_rows infos zero i last = ([], 0)
      passing_rows infos (suc n) i last =
          let pass = row_passes infos i last in
          let rest = passing_rows infos n (suc i) (if pass then some i else last) in
          if pass then (i ∷ rest.0, rest.1) else (rest.0, suc rest.1)

      unfoldable pub outgoing_state : Option ℕ → InterRowConstraintDef F × ℕ → InterRowState F
      outgoing_state none (c, idx) = blank_state c
      outgoing_state (some i) (c, idx) = record {
        last_value = some (batch.value idx i);
        initialized = true;
        column_name = c.column_name;
      }

      -- The loops over the rows, and the result.
      unfoldable pub filter_rows : List (InterRowConstraintDef F × ℕ) → InterRowResult F
      unfolding passing_rows outgoing_state
      filter_rows infos =
          let (rows, filtered) = passing_rows infos batch.num_rows 0 none in
          record {
            filtered_batch = rows;
            outgoing_states = map (outgoing_state (last_row rows)) infos;
            rows_passed = length rows;
            rows_filtered = filtered;
          }

    -- execute_batch after validate_constraints; none is the null pointer.
    unfoldable pub execute_valid :
        InterRowEngine F → Option (RowBatch F) → List (InterRowState F) → Result (InterRowResult F)
    unfolding indexed prev_values filter_rows
    execute_valid engine none incoming = ok (empty_result engine.constraints)
    execute_valid engine (some batch) incoming =
        if batch.num_rows == 0
        then ok (empty_result engine.constraints)
        else elim (indexed engine.schema engine.constraints) [
          | err e ↦ err e
          | ok infos ↦ ok (filter_rows batch (prev_values incoming []) infos)
        ]

    unfoldable pub execute_batch :
        InterRowEngine F → Option (RowBatch F) → List (InterRowState F) → Result (InterRowResult F)
    unfolding validate_constraints execute_valid
    execute_batch engine batch incoming =
        validate_constraints engine >> execute_valid engine batch incoming
