-- ===== src/Common/Sample.antt =====
-- Whole numbers in place of doubles, for the examples; the number 999 plays the part of NaN.
use synthgen_core.Prelude.{ℕ, some, ltb, leb, ◌==◌}
use synthgen_core.Prelude.Decimal.{number}
use synthgen_core.Common.Double.{Double}

instance abbrev pub whole : Double ℕ
whole = record {
  lt = ltb;
  ge = λ a b. leb b a;
  is_nan = λ a. a == 999;
  zero_value = 0;
  negate = λ a. a;
  stod = λ s. some (number 0 s);
}
