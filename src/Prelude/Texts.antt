-- ===== src/Prelude/Texts.antt =====
-- `std::string` as the list of its bytes, with the equality and the order of `std::string`.
use Prim.Native.Nat.{ℕ}
use Prim.Native.Char.{code}
use Prim.Native.String.{String}
use mathlib.Core.Path.{◌≡◌, refl}
use mathlib.Core.Logic.{◌≢◌, ◌↔◌}
use mathlib.Core.Bool.{Bool, true, false, ◌&&◌, ◌||◌}
use mathlib.Core.List.{List, [], ◌∷◌, ◌++◌}
use native.Mathlib.Omega.{arith}
use synthgen_core.Prelude.Tests.{ltb, ◌==◌, if◌then◌else◌}

abbrev pub Text : Type 0
Text = List ℕ

-- A literal.
unfoldable pub text : String → Text
text String.[] = []
text (String.◌∷◌ c s) = code c ∷ text s

unfoldable pub text_eq : Text → Text → Bool
text_eq [] [] = true
text_eq (a ∷ s) (b ∷ t) = (a == b) && text_eq s t
text_eq _ _ = false

-- Lexicographic, byte by byte.
unfoldable pub text_lt : Text → Text → Bool
text_lt s [] = false
text_lt [] (b ∷ t) = true
text_lt (a ∷ s) (b ∷ t) = let rest = text_lt s t in if a == b then rest else ltb a b

pub of_text_eq : (s t : Text) → text_eq s t ≡ true → s ≡ t
unfolding text_eq
of_text_eq [] [] h = refl
of_text_eq [] (b ∷ t) h = cc
of_text_eq (a ∷ s) [] h = cc
of_text_eq (a ∷ s) (b ∷ t) h = ground (arith, of_text_eq s t)

pub text_eq_refl : (s : Text) → text_eq s s ≡ true
unfolding text_eq
text_eq_refl [] = refl
text_eq_refl (a ∷ s) = ground (arith, text_eq_refl s)

pub text_eq_iff : (s t : Text) → (text_eq s t ≡ true) ↔ (s ≡ t)
text_eq_iff s t = (of_text_eq s t, λ e. subst_eq e)
  where
    subst_eq : s ≡ t → text_eq s t ≡ true
    subst_eq e = rw e (text_eq_refl t)

pub text_eq-false : (s t : Text) → s ≢ t → text_eq s t ≡ false
text_eq-false s t h = ground (arith, text_eq_iff s t)

pub text_eq-sym : (s t : Text) → text_eq s t ≡ text_eq t s
text_eq-sym s t = ground (arith, text_eq_iff s t, text_eq_iff t s)

-- `std::find` over a vector of texts, or `count` of a set of texts.
unfoldable pub text_mem : Text → List Text → Bool
text_mem s [] = false
text_mem s (t ∷ ts) = text_eq t s || text_mem s ts

pub text_mem-cons :
    (s t : Text) (ts : List Text) → text_mem s (t ∷ ts) ≡ (text_eq t s || text_mem s ts)
unfolding text_mem
text_mem-cons s t ts = refl

pub text_mem-append :
    (s : Text) (ts us : List Text) → text_mem s (ts ++ us) ≡ (text_mem s ts || text_mem s us)
unfolding text_mem
text_mem-append s [] us = refl
text_mem-append s (t ∷ ts) us = ground (arith, text_mem-append s ts us)
