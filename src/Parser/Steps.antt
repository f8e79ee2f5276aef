-- ===== src/Parser/Steps.antt =====
-- The steps that read a token.
use synthgen_core.Prelude.{
  ℕ, ◌≤◌, ◌<◌, Text, text_mem, text_eq_iff, text_mem-append, text_mem-cons, Bool, true, false, ◌≡◌,
  refl, sym, ap, subst, List, [], ◌∷◌, ◌++◌, length, arith, Bool-cases, ◌⊎◌, inl, inr,
}
use synthgen_core.Common.Result.{syntax_error}
use synthgen_core.Lexer.{TokenType, Token, type_index, t_error}
use synthgen_core.Lexer.Shapes.{IsToken}
use synthgen_core.Parser.State.{
  Parser, Answer, returned, Parse, ◌>>=◌, continue_with, same_token_type, check, advance_in,
  advance, match, expect, require, define, unexpected, peek,
}
use synthgen_core.Parser.Fine.{
  Stream, Seen, last, more, Within, Sat, Moves, Fine, Value, Any, Sat-weaken, bind, pure-Fine,
  reject_if-Fine,
}
use synthgen_core.Parser.Next.{
  Starts, Within-moved, advance_in-end, advance_in-token, check-Starts, expect-false, expect-true,
  match-false, match-true, moved, unexpected-error,
}

-- The token that `expect` gives, or the error.
abbrev pub Expected : TokenType → Token → Type 0
Expected wanted t = (t.type_of ≡ t_error) ⊎ (IsToken t.type_of t.lexeme × (t.type_of ≡ wanted))

module _ {n : ℕ} {types : List Text} where
  continue_with-returned :
      {A B : Type 0} {R : B → Parser → Type 0} (f : A → Parse B) (a : A) (q : Parser)
      (out : Answer A × Parser)
      → out ≡ (returned a, q)
      → Sat n types R (f a q)
      → Sat n types R (continue_with f out)
  unfolding continue_with
  continue_with-returned {A} {B} {R} f a q out e s =
      subst (λ o. Sat n types R (continue_with f o)) (sym e) s

  -- A token that may stand next: where it does, what follows has fewer tokens.
  pub match-bind :
      {B : Type 0} {R : B → Parser → Type 0} {f : Bool → Parse B} (wanted : TokenType)
      → ((b : Bool) (k : ℕ) → k ≤ n → (b ≡ true → k < n) → Fine k types R (f b))
      → Fine n types R (match wanted >>= f)
  match-bind {B} {R} {f} wanted next = record {
    at = λ p w.
        unfold ◌>>=◌ in
        elim (Bool-cases (check wanted p.tokens)) [
          | inl e ↦
              let s = check-Starts wanted p.tokens w.stream e in
              let (fewer, v) = Within-moved wanted n types p s w in
              continue_with-returned f true (moved p s) (match wanted p) (match-true wanted p s e) (
                Sat-weaken n (length s.rest) types types (f true (moved p s)) (omega (arith, fewer))
                  (λ x h. h)
                  ((next true (length s.rest) (omega (arith, fewer)) (λ _. fewer)).at (moved p s)
                    v))
          | inr e ↦
              continue_with-returned f false p (match wanted p) (match-false wanted p e)
                ((next false n (omega arith) (λ h. absurd cc)).at p w)
        ];
  }

  -- A token that stands next, and what follows it.
  pub match-Moves :
      {B : Type 0} {R : B → Parser → Type 0} {f : Bool → Parse B} (wanted : TokenType) (p : Parser)
      → Within n types p
      → check wanted p.tokens ≡ true
      → ((b : Bool) (k : ℕ) → b ≡ true → k < n → Fine k types R (f b))
      → Moves n types R ((match wanted >>= f) p)
  unfolding ◌>>=◌
  match-Moves {B} {R} {f} wanted p w e next =
      let s = check-Starts wanted p.tokens w.stream e in
      let (fewer, v) = Within-moved wanted n types p s w in
      record {
        fewer = length s.rest;
        less = fewer;
        sat =
            subst (λ o. Sat (length s.rest) types R (continue_with f o))
              (sym (match-true wanted p s e))
              ((next true (length s.rest) refl fewer).at (moved p s) v);
      }

  pub expect-Moves :
      {B : Type 0} {R : B → Parser → Type 0} {f : Token → Parse B} (wanted : TokenType) (p : Parser)
      → Within n types p
      → check wanted p.tokens ≡ true
      → ((t : Token) (k : ℕ) → k < n → Fine k types R (f t))
      → Moves n types R ((expect wanted >>= f) p)
  unfolding ◌>>=◌
  expect-Moves {B} {R} {f} wanted p w e next =
      let s = check-Starts wanted p.tokens w.stream e in
      let (fewer, v) = Within-moved wanted n types p s w in
      record {
        fewer = length s.rest;
        less = fewer;
        sat =
            subst (λ o. Sat (length s.rest) types R (continue_with f o))
              (sym (expect-true wanted p s e))
              ((next s.first (length s.rest) fewer).at (moved p s) v);
      }

  -- A step of which the answer is known.
  Sat-returned :
      {A : Type 0} (Q : A → Type 0) (a : A) (q : Parser) (out : Answer A × Parser)
      → out ≡ (returned a, q)
      → Within n types q
      → Q a
      → Sat n types (Value Q) out
  unfolding Value
  Sat-returned Q a q out e w h =
      subst (Sat n types (Value Q)) (sym e) (record { within = w; answered = h })

  Within-after :
      (wanted : TokenType) (p : Parser) (s : Starts wanted p.tokens)
      → Within n types p
      → Within n types (moved p s)
  Within-after wanted p s w =
      let (fewer, v) = Within-moved wanted n types p s w in
      record { stream = v.stream; few = omega (arith, fewer); before = v.before; known = v.known }

  pub match-Fine : (wanted : TokenType) → Fine n types (Value Any) (match wanted)
  match-Fine wanted = record {
    at = λ p w. elim (Bool-cases (check wanted p.tokens)) [
      | inl e ↦
          let s = check-Starts wanted p.tokens w.stream e in
          Sat-returned Any true (moved p s) (match wanted p) (match-true wanted p s e)
            (Within-after wanted p s w) tt
      | inr e ↦ Sat-returned Any false p (match wanted p) (match-false wanted p e) w tt
    ];
  }

  pub expect-Fine : (wanted : TokenType) → Fine n types (Value (Expected wanted)) (expect wanted)
  expect-Fine wanted = record {
    at = λ p w. elim (Bool-cases (check wanted p.tokens)) [
      | inl e ↦
          let s = check-Starts wanted p.tokens w.stream e in
          Sat-returned (Expected wanted) s.first (moved p s) (expect wanted p)
            (expect-true wanted p s e) (Within-after wanted p s w) (inr (s.token, s.same))
      | inr e ↦
          Sat-returned (Expected wanted) (unexpected wanted (peek p.tokens)) p (expect wanted p)
            (expect-false wanted p e) w (inl (unexpected-error wanted (peek p.tokens)))
    ];
  }

  pub require-Fine :
      (wanted : TokenType) (message : Text)
      → Fine n types
          (Value (λ t. IsToken t.type_of t.lexeme × (t.type_of ≡ wanted)))
          (require wanted message)
  unfolding require
  require-Fine wanted message = bind (expect-Fine wanted) λ t found.
      bind (reject_if-Fine (same_token_type t.type_of t_error) syntax_error message) λ _ good.
        pure-Fine (λ t. IsToken t.type_of t.lexeme × (t.type_of ≡ wanted)) t (kept t found good)
    where
      kept :
          (t : Token)
          → Expected wanted t
          → same_token_type t.type_of t_error ≡ false
          → IsToken t.type_of t.lexeme × (t.type_of ≡ wanted)
      kept t (inl e) good = absurd (let i = ap type_index e in ground (arith, i, good))
      kept t (inr h) good = h

  pub advance-Fine : Fine n types (Value Seen) advance
  unfolding advance
  advance-Fine = record {
    at = λ p w. advanced p.previous p.tokens p.defined_types w.stream w.few w.before w.known;
  }
    where
      advanced :
          (previous : Token) (tokens : List Token) (defined : List Text)
          → Stream tokens
          → length tokens ≤ n
          → Seen previous
          → ((x : Text) → text_mem x types ≡ true → text_mem x defined ≡ true)
          → Sat n types (Value Seen) (advance_in previous tokens defined)
      advanced previous tokens defined (last t e) h b k =
          Sat-returned Seen previous
            (record { previous = previous; tokens = t ∷ []; defined_types = defined })
            (advance_in previous (t ∷ []) defined) (advance_in-end previous t defined e)
            (record { stream = last t e; few = omega (arith, h); before = b; known = k }) b
      advanced previous tokens defined (more t ts i s) h b k =
          Sat-returned Seen t (record { previous = t; tokens = ts; defined_types = defined })
            (advance_in previous (t ∷ ts) defined) (advance_in-token previous t ts defined i)
            (record { stream = s; few = omega arith; before = λ _. i; known = k }) (λ _. i)

  -- What follows a step after which a name is defined may rely on it.
  pub Sat-defined :
      {B : Type 0} {R : B → Parser → Type 0} (name : Text) (m : Parse B) (q : Parser)
      → Fine n (name ∷ types) R m
      → Within n types q
      → text_mem name q.defined_types ≡ true
      → Sat n types R (m q)
  unfolding text_mem
  Sat-defined {B} {R} name m q fine w e =
      Sat-weaken n n types (name ∷ types) (m q) (omega arith) (λ x h. ground (arith, h))
        (fine.at q (record {
          stream = w.stream;
          few = w.few;
          before = w.before;
          known = λ x h. ground (arith, text_mem-cons x name types, w.known x, text_eq_iff name x);
        }))

  pub define-bind :
      {B : Type 0} {R : B → Parser → Type 0} {f : Unit {0} → Parse B} (name : Text)
      → ((u : Unit {0}) → Fine n (name ∷ types) R (f u))
      → Fine n types R (define name >>= f)
  define-bind {B} {R} {f} name next = record {
    at = λ p w.
        unfold ◌>>=◌ define continue_with in
        Sat-defined name (f tt) (record p { defined_types = p.defined_types ++ name ∷ [] })
          (next tt)
          (record {
            stream = w.stream;
            few = w.few;
            before = w.before;
            known =
                λ x h. ground (arith, text_mem-append x p.defined_types (name ∷ []), w.known x h);
          })
          (unfold text_mem in
            ground
              (arith, text_mem-append name p.defined_types (name ∷ []), text_eq_iff name name));
  }
