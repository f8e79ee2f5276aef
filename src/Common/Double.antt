-- ===== src/Common/Double.antt =====
-- The floating-point numbers that the code computes with. Their arithmetic is the processor's and
-- is not defined here: the code that compares or reads doubles takes it as an instance argument.
use synthgen_core.Prelude.{Text, Bool, Option}

pub record Double (F : Type 0) : Type 0 where
  pub lt : F → F → Bool
  pub ge : F → F → Bool
  pub is_nan : F → Bool
  pub zero_value : F
  -- x * -1; the code's x * 1 is x
  pub negate : F → F
  -- std::stod, which throws where the value is out of range
  pub stod : Text → Option F
