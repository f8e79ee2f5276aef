-- ===== src/Prelude/Hex.antt =====
-- `oss << std::hex << n` of a number that is not negative, and texts that are joined by a
-- separator which they do not hold.
use Prim.Native.Nat.{ℕ, zero, suc, ◌+◌, ◌-◌, ◌*◌, ◌/◌, ◌%◌, ◌<◌}
use mathlib.Core.Path.{◌≡◌, refl, sym, ap, ◌∙◌}
use mathlib.Core.Logic.{◌≢◌}
use mathlib.Core.List.{[], ◌∷◌, ◌++◌}
use native.Mathlib.Omega.{arith}
use synthgen_core.Prelude.Tests.{ltb, if◌then◌else◌, if_rule}
use synthgen_core.Prelude.Lists.{All}
use synthgen_core.Prelude.Texts.{Text}

abbrev pub hex_digit : ℕ → ℕ
hex_digit n = if ltb n 10 then 48 + n else 87 + n

-- The digits of `n` in front of `rest`; fuel above `n` is enough.
unfoldable pub hex_digits : ℕ → ℕ → Text → Text
hex_digits zero n rest = rest
hex_digits (suc f) n rest =
    let more = hex_digits f (n / 16) (hex_digit (n % 16) ∷ rest) in
    if ltb n 16 then hex_digit n ∷ rest else more

unfoldable pub to_hex : ℕ → Text
unfolding hex_digits
to_hex n = hex_digits (suc n) n []

digit_value : ℕ → ℕ
digit_value c = if ltb c 58 then c - 48 else c - 87

-- The number that a text of digits stands for, read on from `acc`.
hex_number : ℕ → Text → ℕ
hex_number acc [] = acc
hex_number acc (c ∷ cs) = hex_number (acc * 16 + digit_value c) cs

digit_value-hex_digit : (n : ℕ) → n < 16 → digit_value (hex_digit n) ≡ n
unfolding digit_value
digit_value-hex_digit n h = ground arith

hex_number-hex_digits :
    (f n : ℕ) (rest : Text) → n < f → hex_number 0 (hex_digits f n rest) ≡ hex_number n rest
unfolding hex_digits hex_number
hex_number-hex_digits zero n rest h = absurd (omega arith)
hex_number-hex_digits (suc f) n rest h = ground (
  arith,
  hex_number-hex_digits f (n / 16) (hex_digit (n % 16) ∷ rest),
  digit_value-hex_digit n,
  digit_value-hex_digit (n % 16),
)

pub to_hex-injective : (m n : ℕ) → to_hex m ≡ to_hex n → m ≡ n
unfolding to_hex hex_number
to_hex-injective m n e =
    sym (hex_number-hex_digits (suc m) m [] (omega arith))
    ∙ ap (hex_number 0) e
    ∙ hex_number-hex_digits (suc n) n [] (omega arith)

-- No digit is the separator.
abbrev pub Without : ℕ → Text → Type 0
Without sep s = All (λ c. c ≢ sep) s

hex_digits-Without : (f n : ℕ) (rest : Text) → Without 95 rest → Without 95 (hex_digits f n rest)
unfolding hex_digits
hex_digits-Without zero n rest h = h
hex_digits-Without (suc f) n rest h =
    if_rule (Without 95) (ltb n 16) (λ e. (ground arith, h))
      λ e. hex_digits-Without f (n / 16) (hex_digit (n % 16) ∷ rest) (ground arith, h)

pub to_hex-Without : (n : ℕ) → Without 95 (to_hex n)
unfolding to_hex
to_hex-Without n = hex_digits-Without (suc n) n [] tt

pub split_at_separator :
    (sep : ℕ) (a b s t : Text)
    → Without sep a
    → Without sep b
    → a ++ sep ∷ s ≡ b ++ sep ∷ t
    → (a ≡ b) × (s ≡ t)
split_at_separator sep [] [] s t h k e = (refl, cc)
split_at_separator sep [] (y ∷ b) s t h k e = absurd (k.0 (cc))
split_at_separator sep (x ∷ a) [] s t h k e = absurd (h.0 (cc))
split_at_separator sep (x ∷ a) (y ∷ b) s t h k e =
    let rest = split_at_separator sep a b s t h.1 k.1 (cc) in (cc (rest.0), rest.1)
