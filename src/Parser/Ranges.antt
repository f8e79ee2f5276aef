-- ===== src/Parser/Ranges.antt =====
-- The numbers, the ranges, the values and the modifiers of a column that the parser reads.
use synthgen_core.Prelude.{
  Bool-cases, ℕ, zero, suc, ◌≤◌, Text, text, Bool, true, false, not, ◌&&◌, ◌≡◌, ◌≢◌, refl, Option,
  none, some, List, [], ◌∷◌, if◌then◌else◌, arith, ◌⊎◌, inl, inr,
}
use synthgen_core.Common.Result.{syntax_error, invalid_range, invalid_enum}
use synthgen_core.Common.Double.{Double}
use synthgen_core.Schema.{is_empty}
use synthgen_core.Lexer.{
  TokenType, Token, l_float, l_int, k_not, k_null, k_order, l_string, s_lparen, s_rparen,
  s_lbracket, s_rbracket, s_comma, s_minus, s_semicolon,
}
use synthgen_core.Lexer.Shapes.{
  IsToken, word, number, negative, quoted, symbol_of, greater, greater_eq, less, less_eq, minus,
}
use synthgen_core.Parser.State.{same_token_type, thrown, pure, skip_semicolon}
use synthgen_core.Parser.Columns.{
  more_before, strip_quotes, is_number, Modifiers, modifiers, enum_values, enum_type, scaled,
  signed_number, parse_range,
}
use synthgen_core.Parser.Fine.{
  Fine, Seen, Value, Any, bind, pure-Fine, if-Fine, reject_if-Fine, at_end-Fine, checks-Fine,
  stuck-Fine, thrown-Fine,
}
use synthgen_core.Parser.Next.{same_token_type-eq}
use synthgen_core.Parser.Steps.{match-bind, match-Fine, expect-Fine, require-Fine, advance-Fine}

pub IsToken-ne-nil : (t : TokenType) (s : Text) → IsToken t s → s ≢ []
unfolding text
IsToken-ne-nil _ _ (word c w h k) e = cc
IsToken-ne-nil _ _ (number c w t h k) e = cc
IsToken-ne-nil _ _ (negative w t k) e = cc
IsToken-ne-nil _ _ (quoted body h) e = cc
IsToken-ne-nil _ _ (symbol_of c t h) e = cc
IsToken-ne-nil _ _ greater e = cc
IsToken-ne-nil _ _ greater_eq e = cc
IsToken-ne-nil _ _ less e = cc
IsToken-ne-nil _ _ less_eq e = cc
IsToken-ne-nil _ _ minus e = cc

pub and-left : (a b : Bool) → (a && b) ≡ true → a ≡ true
and-left a b h = ground arith

module _ {n : ℕ} {types : List Text} where
  pub more_before-Fine : (close : TokenType) → Fine n types (Value Any) (more_before close)
  unfolding more_before
  more_before-Fine close =
      bind at_end-Fine
        λ ended _. bind (checks-Fine close) λ closed _. pure-Fine Any (not ended && not closed) tt

  pub skip_semicolon-Fine : Fine n types (Value Any) skip_semicolon
  unfolding skip_semicolon
  skip_semicolon-Fine = match-Fine s_semicolon

pub modifiers-Fine :
    {types : List Text} (f n : ℕ) (m : Modifiers) → n ≤ f → Fine n types (Value Any) (modifiers f m)
unfolding modifiers
modifiers-Fine zero n m h = stuck-Fine h
modifiers-Fine (suc f) n (not_null, is_order) h = match-bind k_not λ null_next k le lt.
    if-Fine null_next
      (λ e.
        bind (expect-Fine k_null)
          λ _ _. modifiers-Fine f k (true, is_order) (omega (arith, h, lt e)))
      (λ _. match-bind k_order λ order_next j le' lt'.
        if-Fine order_next (λ e. modifiers-Fine f j (not_null, true) (omega (arith, h, le, lt' e)))
          (λ _. pure-Fine Any (not_null, is_order) tt))

abbrev NotEmpty : List Text → Type 0
NotEmpty values = values ≢ []

cons-NotEmpty : (v : Text) (vs : List Text) → NotEmpty (v ∷ vs)
cons-NotEmpty v vs e = cc

enum_values-Fine :
    {types : List Text} (f n : ℕ) → n ≤ f → Fine n types (Value NotEmpty) (enum_values f)
unfolding enum_values
enum_values-Fine zero n h = stuck-Fine h
enum_values-Fine (suc f) n h =
    bind (require-Fine l_string (text "Expected string value in ENUM")) λ val _.
      match-bind s_comma λ comma k le lt. bind (more_before-Fine s_rparen) λ more _.
        if-Fine (comma && more)
          (λ e. bind (enum_values-Fine f k (omega (arith, h, lt (and-left comma more e)))) λ rest _.
            pure-Fine NotEmpty (strip_quotes val.lexeme ∷ rest)
              (cons-NotEmpty (strip_quotes val.lexeme) rest))
          (λ _.
            pure-Fine NotEmpty (strip_quotes val.lexeme ∷ [])
              (cons-NotEmpty (strip_quotes val.lexeme) []))

pub enum_type-Fine :
    {types : List Text} (f n : ℕ) → n ≤ f → Fine n types (Value NotEmpty) (enum_type f)
unfolding enum_type
enum_type-Fine f n h = bind (expect-Fine s_lparen) λ _ _.
    bind (enum_values-Fine f n h) λ values some_value. bind (expect-Fine s_rparen) λ _ _.
      bind
        (reject_if-Fine (is_empty values) invalid_enum (text "ENUM must have at least one value"))
        λ _ _. pure-Fine NotEmpty values some_value

-- The lexeme of an integer or of a float, as the lexer gives it.
pub record IsNumeral (s : Text) : Type 0 where
  pub type_of : TokenType
  pub token : IsToken type_of s
  pub numeric : (type_of ≡ l_float) ⊎ (type_of ≡ l_int)

pub number-IsNumeral : (t : Token) → Seen t → not (is_number t) ≡ false → IsNumeral t.lexeme
number-IsNumeral t seen e = record {
  type_of = t.type_of;
  token = seen (ground (arith, e));
  numeric = elim (Bool-cases (same_token_type t.type_of l_float)) [
    | inl f ↦ inl (same_token_type-eq t.type_of l_float f)
    | inr f ↦ inr (same_token_type-eq t.type_of l_int (ground (arith, e, f)))
  ];
}

module _ {F : Type 0} ⦃d : Double F⦄ where
  -- A number that `std::stod` reads from the lexeme of a number, or its opposite.
  pub record IsRead (x : F) : Type 0 where
    pub lexeme : Text
    pub numeral : IsNumeral lexeme
    pub magnitude : F
    pub reads : d.stod lexeme ≡ some magnitude
    pub sign : (x ≡ magnitude) ⊎ (x ≡ d.negate magnitude)

  -- Two ends that are in order, or none.
  pub data RangeRead : Option F → Option F → Type 0 where
    open_range : RangeRead none none
    closed_range :
        (lo hi : F) → IsRead lo → IsRead hi → d.ge lo hi ≡ false → RangeRead (some lo) (some hi)

  signed-IsRead :
      (neg : Bool) (s : Text) (x : F)
      → IsNumeral s
      → d.stod s ≡ some x
      → IsRead (if neg then d.negate x else x)
  signed-IsRead true s x i e = record {
    lexeme = s;
    numeral = i;
    magnitude = x;
    reads = e;
    sign = inr refl;
  }
  signed-IsRead false s x i e = record {
    lexeme = s;
    numeral = i;
    magnitude = x;
    reads = e;
    sign = inl refl;
  }

  pub scaled-Fine :
      {n : ℕ} {types : List Text} (neg : Bool) (s : Text)
      → IsNumeral s
      → Fine n types (Value IsRead) (scaled neg s)
  unfolding scaled
  scaled-Fine {n} {types} neg s i = by_result (d.stod s) refl
    where
      by_result :
          (o : Option F)
          → d.stod s ≡ o
          → Fine n types
              (Value IsRead)
              (elim o [ none ↦ λ p. (thrown, p) | some x ↦ pure (if neg then d.negate x else x) ])
      by_result none e = thrown-Fine
      by_result (some x) e =
          pure-Fine IsRead (if neg then d.negate x else x) (signed-IsRead neg s x i e)

  pub signed_number-Fine :
      {n : ℕ} {types : List Text} (message : Text)
      → Fine n types (Value IsRead) (signed_number message)
  unfolding signed_number
  signed_number-Fine message = bind (match-Fine s_minus) λ neg _. bind advance-Fine λ tok seen.
      bind (reject_if-Fine (not (is_number tok)) syntax_error message)
        λ _ e. scaled-Fine neg tok.lexeme (number-IsNumeral tok seen e)

  abbrev pub Range : Option F × Option F → Type 0
  Range r = RangeRead r.0 r.1

  pub parse_range-Fine :
      {n : ℕ} {types : List Text} (a b : Text) → Fine n types (Value Range) (parse_range a b)
  unfolding parse_range
  parse_range-Fine a b = bind (match-Fine s_lbracket) λ bracket _.
      if-Fine bracket
        (λ _. bind (signed_number-Fine a) λ lo read_lo. bind (expect-Fine s_comma) λ _ _.
          bind (signed_number-Fine b) λ hi read_hi. bind (expect-Fine s_rbracket) λ _ _.
            bind
              (reject_if-Fine (d.ge lo hi) invalid_range
                (text "range_min must be less than range_max"))
              λ _ below.
                pure-Fine Range (some lo, some hi) (closed_range lo hi read_lo read_hi below))
        (λ _. pure-Fine Range (none, none) open_range)
