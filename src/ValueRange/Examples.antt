-- ===== src/ValueRange/Examples.antt =====
-- The validator on a batch of two chunks.
use synthgen_core.Prelude.{ℕ, text, Bool, ◌≡◌, ◌≢◌, refl, none, some, List, [], ◌∷◌, arith}
use synthgen_core.Prelude.Int.{pos_part}
use synthgen_core.Common.Types.{float}
use synthgen_core.Common.Sample.{whole}
use synthgen_core.ValueRange.{
  ColumnValidationRule, double_cells, Batch, Conversions, ValidationFailure, validate_batch, fails,
  below_min, above_max,
}
use synthgen_core.ValueRange.Count.{failing, Reports, validate_batch-Reports}

abbrev rules : List (ColumnValidationRule ℕ)
rules =
    record {
      column_name = text "speed";
      type = float;
      min_value = some 1;
      max_value = some 5;
      min_strict = Bool.true;
      max_strict = Bool.false;
      constraint_name = text "constraint";
    }
    ∷ []

abbrev batch : Batch ℕ
batch = record {
  num_rows = 4;
  column = λ name. some (double_cells ((some 1 ∷ none ∷ []) ∷ (some 5 ∷ some 6 ∷ []) ∷ []));
}

abbrev conversions : Conversions ℕ
conversions = record { of_int = pos_part; ratio = λ a b. pos_part a; one = 1 }

-- The first cell of the first chunk fails, and the second of the second.
abbrev failures : List (ValidationFailure ℕ)
failures =
    record {
      row_index = 0;
      column_name = text "speed";
      actual_value = 1;
      expected_min = 1;
      expected_max = 5;
      constraint_name = text "constraint";
    }
    ∷ record {
      row_index = 1;
      column_name = text "speed";
      actual_value = 6;
      expected_min = 1;
      expected_max = 5;
      constraint_name = text "constraint";
    }
    ∷ []

failing_cells : failing conversions rules batch ≡ some failures
unfolding fails below_min above_max
failing_cells = refl

some_rows : batch.num_rows ≢ 0
some_rows e = omega (arith, e)

validate_batch-Reports_example :
    Reports conversions batch
      (failing conversions rules batch)
      (validate_batch conversions rules (some batch))
validate_batch-Reports_example = validate_batch-Reports conversions rules batch some_rows
