-- ===== src/Prelude/Decimal.antt =====
-- `std::to_string` of a number that is not negative.
use Prim.Native.Nat.{ℕ, zero, suc, ◌+◌, ◌-◌, ◌*◌, ◌/◌, ◌%◌, ◌<◌}
use mathlib.Core.Path.{◌≡◌, sym, ap, ◌∙◌}
use mathlib.Core.List.{[], ◌∷◌}
use native.Mathlib.Omega.{arith}
use synthgen_core.Prelude.Tests.{ltb, if◌then◌else◌}
use synthgen_core.Prelude.Texts.{Text}

-- The digits of `n` in front of `rest`; fuel above `n` is enough.
unfoldable pub digits : ℕ → ℕ → Text → Text
digits zero n rest = rest
digits (suc f) n rest =
    let more = digits f (n / 10) ((48 + n % 10) ∷ rest) in
    if ltb n 10 then (48 + n) ∷ rest else more

unfoldable pub to_string : ℕ → Text
unfolding digits
to_string n = digits (suc n) n []

-- The number that a text of digits stands for, read on from `acc`.
unfoldable pub number : ℕ → Text → ℕ
number acc [] = acc
number acc (c ∷ cs) = number (acc * 10 + (c - 48)) cs

-- What is printed is read back, whatever follows.
number-digits : (f n : ℕ) (rest : Text) → n < f → number 0 (digits f n rest) ≡ number n rest
unfolding digits number
number-digits zero n rest h = absurd (omega arith)
number-digits (suc f) n rest h = ground (arith, number-digits f (n / 10) ((48 + n % 10) ∷ rest))

pub number-to_string : (n : ℕ) → number 0 (to_string n) ≡ n
unfolding to_string number
number-to_string n = number-digits (suc n) n [] (omega arith)

pub to_string-injective : (m n : ℕ) → to_string m ≡ to_string n → m ≡ n
to_string-injective m n e = sym (number-to_string m) ∙ ap (number 0) e ∙ number-to_string n
