-- ===== src/InterRow/Examples.antt =====
-- The engine on a batch of four rows, with a column that has to rise.
use synthgen_core.Prelude.{ℕ, zero, suc, ◌+◌, ◌-◌, text, true, false, none, some, List, [], ◌∷◌}
use synthgen_core.Common.Types.{float, datetime}
use synthgen_core.Common.Sample.{whole}
use synthgen_core.Schema.{Schema}
use synthgen_core.InterRow.{InterRowConstraintDef, monotone_increase, InterRowState, RowBatch}

abbrev schema : Schema ℕ
schema = record {
  type_name = text "log";
  columns =
      record {
        name = text "at";
        type = datetime;
        not_null = true;
        is_order = true;
        range_min = none;
        range_max = none;
        enum_values = [];
      }
      ∷ record {
        name = text "speed";
        type = float;
        not_null = false;
        is_order = false;
        range_min = none;
        range_max = none;
        enum_values = [];
      }
      ∷ [];
}

abbrev rising : InterRowConstraintDef ℕ
rising = record {
  column_name = text "speed";
  order_column = text "at";
  type = monotone_increase;
  delta_max = none;
  delta_min = none;
}

abbrev speeds : ℕ → ℕ
speeds zero = 1
speeds (suc zero) = 3
speeds (suc (suc zero)) = 2
speeds (suc (suc (suc i))) = 5

-- 1, 3, 2, 5 in the second column: the third row is filtered.
abbrev batch : RowBatch ℕ
batch = record { num_rows = 4; value = λ idx i. speeds i }

abbrev incoming : List (InterRowState ℕ)
incoming = record { last_value = some 0; initialized = true; column_name = text "speed" } ∷ []

abbrev distance : ℕ → ℕ → ℕ
distance a b = (a - b) + (b - a)
