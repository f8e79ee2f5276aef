-- ===== src/Parser/Next.antt =====
-- The parser before and after the token that stands next.
use synthgen_core.Prelude.{
  ℕ, suc, ◌<◌, Text, true, false, ◌≡◌, refl, ap, ◌∙◌, List, [], ◌∷◌, length, arith,
}
use synthgen_core.Lexer.{TokenType, Token, type_index, t_eof, t_error}
use synthgen_core.Lexer.Shapes.{IsToken}
use synthgen_core.Lexer.Plain.{IsToken-plain}
use synthgen_core.Lexer.Places.{type_index-injective}
use synthgen_core.Parser.State.{
  Parser, returned, ◌>>=◌, continue_with, pure, same_token_type, is_at_end, check, advance_in,
  advance, match, expect, unexpected, peek,
}
use synthgen_core.Parser.Fine.{Stream, last, more, Within}

not_eof : (t : TokenType) (s : Text) → IsToken t s → same_token_type t t_eof ≡ false
unfolding type_index
not_eof t s h = ground (arith, IsToken-plain t s h)

pub is_eof : (t : TokenType) → t ≡ t_eof → same_token_type t t_eof ≡ true
is_eof t e = let i = ap type_index e in ground (arith, i)

pub same_token_type-eq : (t u : TokenType) → same_token_type t u ≡ true → t ≡ u
same_token_type-eq t u e = type_index-injective t u (ground (arith, e))

-- What the first token is where a check succeeds.
pub record Starts (wanted : TokenType) (tokens : List Token) : Type 0 where
  pub first : Token
  pub rest : List Token
  pub split : tokens ≡ first ∷ rest
  pub token : IsToken first.type_of first.lexeme
  pub stream : Stream rest
  pub same : first.type_of ≡ wanted

pub check-Starts :
    (wanted : TokenType) (tokens : List Token)
    → Stream tokens
    → check wanted tokens ≡ true
    → Starts wanted tokens
unfolding check is_at_end
check-Starts wanted tokens (last t e) c = absurd (ground (arith, is_eof t.type_of e))
check-Starts wanted tokens (more t ts i s) c = record {
  first = t;
  rest = ts;
  split = refl;
  token = i;
  stream = s;
  same = same_token_type-eq t.type_of wanted (ground (arith, c));
}

pub advance_in-token :
    (previous t : Token) (ts : List Token) (defined : List Text)
    → IsToken t.type_of t.lexeme
    → advance_in previous (t ∷ ts) defined
      ≡ (returned t, record { previous = t; tokens = ts; defined_types = defined })
unfolding advance_in
advance_in-token previous t ts defined i = ground (arith, not_eof t.type_of t.lexeme i)

pub advance_in-end :
    (previous t : Token) (defined : List Text)
    → t.type_of ≡ t_eof
    → advance_in previous (t ∷ []) defined ≡ (
      returned previous,
      record { previous = previous; tokens = t ∷ []; defined_types = defined },
    )
unfolding advance_in
advance_in-end previous t defined e = ground (arith, is_eof t.type_of e)

-- The parser after the token that was checked.
abbrev pub moved : {wanted : TokenType} (p : Parser) → Starts wanted p.tokens → Parser
moved p s = record { previous = s.first; tokens = s.rest; defined_types = p.defined_types }

advance-moved :
    (wanted : TokenType) (p : Parser) (s : Starts wanted p.tokens)
    → advance p ≡ (returned s.first, moved p s)
unfolding advance
advance-moved wanted p s =
    ap (λ ts. advance_in p.previous ts p.defined_types) s.split
    ∙ advance_in-token p.previous s.first s.rest p.defined_types s.token

pub Within-moved :
    (wanted : TokenType) (n : ℕ) (types : List Text) (p : Parser) (s : Starts wanted p.tokens)
    → Within n types p
    → (length s.rest < n) × Within (length s.rest) types (moved p s)
Within-moved wanted n types p s w =
    let whole : length p.tokens ≡ suc (length s.rest) = ap length s.split in
    (
      omega (arith, w.few, whole),
      record { stream = s.stream; few = omega arith; before = λ _. s.token; known = w.known },
    )

pub match-true :
    (wanted : TokenType) (p : Parser) (s : Starts wanted p.tokens)
    → check wanted p.tokens ≡ true
    → match wanted p ≡ (returned true, moved p s)
unfolding match pure ◌>>=◌
match-true wanted p s e = rw (match, e, advance-moved wanted p s, continue_with) refl

pub match-false :
    (wanted : TokenType) (p : Parser)
    → check wanted p.tokens ≡ false
    → match wanted p ≡ (returned false, p)
unfolding match pure
match-false wanted p e = rw (match, e) refl

pub expect-true :
    (wanted : TokenType) (p : Parser) (s : Starts wanted p.tokens)
    → check wanted p.tokens ≡ true
    → expect wanted p ≡ (returned s.first, moved p s)
unfolding expect
expect-true wanted p s e = rw (expect, e, advance-moved wanted p s) refl

pub expect-false :
    (wanted : TokenType) (p : Parser)
    → check wanted p.tokens ≡ false
    → expect wanted p ≡ (returned (unexpected wanted (peek p.tokens)), p)
unfolding expect
expect-false wanted p e = rw (expect, e) refl

pub unexpected-error : (wanted : TokenType) (t : Token) → (unexpected wanted t).type_of ≡ t_error
unfolding unexpected
unexpected-error wanted t = refl
