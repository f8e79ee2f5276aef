-- ===== src/Lexer/Plain.antt =====
-- The types of the tokens apart from the two special ones.
use synthgen_core.Prelude.{
  ℕ, Text, Bool, true, false, ◌&&◌, ◌||◌, some, ◌≡◌, refl, sym, List, [], ◌∷◌, if◌then◌else◌, ltb,
  arith, inl, inr, subst, Option-cases,
}
use synthgen_core.Lexer.{
  TokenType, type_index, keyword, keyword_map, to_upper, l_ident, l_int, l_float, word_type, symbol,
  symbol_map,
}
use synthgen_core.Lexer.Shapes.{
  Number, IsToken, word, number, negative, quoted, symbol_of, greater, greater_eq, less, less_eq,
  minus,
}

-- Every type but the two special ones.
abbrev pub is_plain : TokenType → Bool
is_plain t = ltb (type_index t) 64

abbrev all_plain {ℓ} : {A : Type ℓ} → List (A × TokenType) → Bool
all_plain [] = true
all_plain ((a, t) ∷ m) = is_plain t && all_plain m

keyword-plain :
    (s : Text) (m : List (Text × TokenType)) (t : TokenType)
    → all_plain m ≡ true
    → keyword s m ≡ some t
    → is_plain t ≡ true
unfolding keyword
keyword-plain s [] t h e = absurd (ground arith)
keyword-plain s ((name, u) ∷ m) t h e = ground (arith, keyword-plain s m t)

symbol-plain :
    (c : ℕ) (m : List (ℕ × TokenType)) (t : TokenType)
    → all_plain m ≡ true
    → symbol c m ≡ some t
    → is_plain t ≡ true
unfolding symbol
symbol-plain c [] t h e = absurd (ground arith)
symbol-plain c ((d, u) ∷ m) t h e = ground (arith, symbol-plain c m t)

keyword_map-plain : all_plain keyword_map ≡ true
unfolding type_index
keyword_map-plain = refl

symbol_map-plain : all_plain symbol_map ≡ true
unfolding type_index
symbol_map-plain = refl

l_ident-plain : is_plain l_ident ≡ true
unfolding type_index
l_ident-plain = refl

word_type-plain : (s : Text) → is_plain (word_type s) ≡ true
unfolding word_type
word_type-plain s = elim (Option-cases (keyword (to_upper s) keyword_map)) [
  | inl e ↦ rw (e, word_type) l_ident-plain
  | inr (t, e) ↦ rw (e, word_type) (keyword-plain (to_upper s) keyword_map t keyword_map-plain e)
]

number_type-plain : (b : Bool) → is_plain (if b then l_float else l_int) ≡ true
unfolding type_index
number_type-plain true = refl
number_type-plain false = refl

Number-plain : (b : Bool) (t : TokenType) (w : Text) → Number b t w → is_plain t ≡ true
Number-plain b t w n =
    subst (λ u. is_plain u ≡ true) (sym n.typed)
      (number_type-plain (n.has_fraction || n.has_exponent))

pub IsToken-plain : (t : TokenType) (s : Text) → IsToken t s → is_plain t ≡ true
unfolding type_index
IsToken-plain t s (word c w first all) = word_type-plain (c ∷ w)
IsToken-plain t s (number c w u d n) = Number-plain false u w n
IsToken-plain t s (negative w u n) = Number-plain true u w n
IsToken-plain t s (quoted body all) = refl
IsToken-plain t s (symbol_of c u e) = symbol-plain c symbol_map u symbol_map-plain e
IsToken-plain t s greater = refl
IsToken-plain t s greater_eq = refl
IsToken-plain t s less = refl
IsToken-plain t s less_eq = refl
IsToken-plain t s minus = refl
