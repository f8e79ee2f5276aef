-- ===== src/Parser/Loop.antt =====
-- The loop of `parse`.
use synthgen_core.Prelude.{
  ℕ, zero, suc, ◌≤◌, ◌<◌, Text, text_mem, true, false, ◌||◌, ◌≡◌, refl, sym, subst, some, List, [],
  ◌∷◌, length, arith, if_rule, All, inl, inr,
}
use synthgen_core.Common.Result.{Error, Result, ok, err}
use synthgen_core.Common.Double.{Double}
use synthgen_core.Lexer.{type_index, Token, k_define, k_load, k_generate, init}
use synthgen_core.Lexer.Tokenize
use synthgen_core.Lexer.Tokenize.{tokenize-Lexes, Lexes}
use synthgen_core.Parser.State.{
  Statement, Parser, Answer, returned, failed, thrown, stuck, same_token_type, is_at_end, check,
}
use synthgen_core.Parser.Statements.{parse_statement}
use synthgen_core.Parser.Run.{
  ParseResult, skip_to_statement, skip_statement, Outcome, add_statement, add_error,
  after_statement, parse_loop, start, parse_tokens, parse,
}
use synthgen_core.Parser.Fine.{Stream, Seen, last, more, Within, Moves}
use synthgen_core.Parser.Next.{is_eof}
use synthgen_core.Parser.Progress.{
  NoStart, Steps, StatementRead, StatementHolds, type_of_statement, parse_statement-Steps,
}

-- The tokens from one on that may begin a statement.
abbrev Skipped : List Token → Token × List Token → Type 0
Skipped tokens out = Stream out.1 × Seen out.0 × (length out.1 ≤ length tokens)

skip_to_statement-Skipped :
    (previous : Token) (tokens : List Token)
    → Seen previous
    → Stream tokens
    → Skipped tokens (skip_to_statement previous tokens)
unfolding skip_to_statement is_at_end
skip_to_statement-Skipped previous _ b (last t e) =
    rw (is_eof t.type_of e) (last t e, b, omega arith)
skip_to_statement-Skipped previous _ b (more t ts i s) =
    let (kept, before, fewer) = skip_to_statement-Skipped t ts (λ _. i) s in
    if_rule (Skipped (t ∷ ts)) _ (λ _. (more t ts i s, b, omega arith))
      (λ _. (kept, before, omega (arith, fewer)))

skip_to_statement-less :
    (previous : Token) (tokens : List Token)
    → Stream tokens
    → is_at_end tokens ≡ false
    → NoStart tokens
    → length (skip_to_statement previous tokens).1 < length tokens
unfolding skip_to_statement is_at_end check
skip_to_statement-less previous _ (last t e) going none_starts =
    absurd (ground (arith, is_eof t.type_of e))
skip_to_statement-less previous _ (more t ts i s) going none_starts =
    let (kept, before, fewer) = skip_to_statement-Skipped t ts (λ _. i) s in
    if_rule (λ (out : Token × List Token). length out.1 < length (t ∷ ts))
      (is_at_end (t ∷ ts)
        || (same_token_type t.type_of k_define
            || (same_token_type t.type_of k_load || same_token_type t.type_of k_generate)))
      (λ starts.
        absurd (ground (arith, starts, going, none_starts.0, none_starts.1, none_starts.2)))
      (λ _. omega (arith, fewer))

Within-skip :
    (n : ℕ) (types : List Text) (p : Parser) → Within n types p → Within n types (skip_statement p)
unfolding skip_statement
Within-skip n types p w =
    let (kept, before, fewer) = skip_to_statement-Skipped p.previous p.tokens w.before w.stream in
    record { stream = kept; few = omega (arith, fewer, w.few); before = before; known = w.known }

module _ {F : Type 0} ⦃d : Double F⦄ where
  -- The loop ends with a result or with an exception; the statements of the result were read, and
  -- the types that they name are defined at the end.
  abbrev pub Ended : Answer (ParseResult F) → Parser → Type 0
  Ended (returned r) p = All (λ s. StatementHolds s p) r.statements
  Ended (failed e) p = ⊥
  Ended thrown p = Unit
  Ended stuck p = ⊥

  pub record Ends (types : List Text) (out : Outcome F) : Type 0 where
    pub known : (x : Text) → text_mem x types ≡ true → text_mem x out.1.defined_types ≡ true
    pub ended : Ended out.0 out.1

  Ends-weaken :
      (types more_types : List Text) (out : Outcome F)
      → ((x : Text) → text_mem x types ≡ true → text_mem x more_types ≡ true)
      → Ends more_types out
      → Ends types out
  Ends-weaken types more_types out sub ends = record {
    known = λ x e. ends.known x (sub x e);
    ended = ends.ended;
  }

  add_statement-Ends :
      (types : List Text) (s : Statement F) (out : Outcome F)
      → StatementRead s
      → text_mem (type_of_statement s) types ≡ true
      → Ends types out
      → Ends types (add_statement s out)
  add_statement-Ends types s (returned r, p) read e ends = record {
    known = ends.known;
    ended = ((read, ends.known (type_of_statement s) e), ends.ended);
  }
  add_statement-Ends types s (failed f, p) read e ends = absurd ends.ended
  add_statement-Ends types s (thrown, p) read e ends = record { known = ends.known; ended = tt }
  add_statement-Ends types s (stuck, p) read e ends = absurd ends.ended

  add_error-Ends :
      (types : List Text) (e : Error) (out : Outcome F)
      → Ends types out
      → Ends types (add_error e out)
  add_error-Ends types e (returned r, p) ends = record { known = ends.known; ended = ends.ended }
  add_error-Ends types e (failed f, p) ends = absurd ends.ended
  add_error-Ends types e (thrown, p) ends = record { known = ends.known; ended = tt }
  add_error-Ends types e (stuck, p) ends = absurd ends.ended

  -- A call that read a token, with the loop after it.
  moved-Ends :
      (n : ℕ) (types : List Text) (next : Parser → Outcome F) (out : Answer (Statement F) × Parser)
      → ((k : ℕ) (seen : List Text) (q : Parser) → k < n → Within k seen q → Ends seen (next q))
      → Moves n types StatementHolds out
      → Ends types (after_statement next out)
  moved-Ends n types next (returned s, q) rest moves =
      let w = moves.sat.within in
      let here : Ends q.defined_types (next q) =
        rest moves.fewer q.defined_types q moves.less
          (record { stream = w.stream; few = w.few; before = w.before; known = λ x e. e }) in
      let holds : StatementHolds s q = moves.sat.answered in
      Ends-weaken types q.defined_types (add_statement s (next q)) w.known
        (add_statement-Ends q.defined_types s (next q) holds.0 holds.1 here)
  moved-Ends n types next (failed e, q) rest moves =
      add_error-Ends types e (next (skip_statement q)) (
        rest moves.fewer types (skip_statement q) moves.less
          (Within-skip moves.fewer types q moves.sat.within))
  moved-Ends n types next (thrown, q) rest moves = record {
    known = moves.sat.within.known;
    ended = tt;
  }
  moved-Ends n types next (stuck, q) rest moves = absurd moves.sat.answered

  -- A call that failed on the token that it left, with the loop after it.
  left_behind-Ends :
      (n : ℕ) (types : List Text) (next : Parser → Outcome F) (out : Answer (Statement F) × Parser)
      (p : Parser) (e : Error)
      → Within n types p
      → is_at_end p.tokens ≡ false
      → out ≡ (failed e, p)
      → NoStart p.tokens
      → ((k : ℕ) (seen : List Text) (q : Parser) → k < n → Within k seen q → Ends seen (next q))
      → Ends types (after_statement next out)
  unfolding skip_statement
  left_behind-Ends n types next out p e w going same none_starts rest =
      let (kept, before, fewer) = skip_to_statement-Skipped p.previous p.tokens w.before w.stream in
      let less = skip_to_statement-less p.previous p.tokens w.stream going none_starts in
      subst (λ o. Ends types (after_statement next o)) (sym same)
        (add_error-Ends types e (next (skip_statement p)) (
          rest (length (skip_to_statement p.previous p.tokens).1) types (skip_statement p)
            (omega (arith, less, w.few))
            (record { stream = kept; few = omega arith; before = before; known = w.known })))

  after_statement-Ends :
      (n : ℕ) (types : List Text) (next : Parser → Outcome F) (out : Answer (Statement F) × Parser)
      (p : Parser)
      → Within n types p
      → is_at_end p.tokens ≡ false
      → ((k : ℕ) (seen : List Text) (q : Parser) → k < n → Within k seen q → Ends seen (next q))
      → Steps n types p out
      → Ends types (after_statement next out)
  after_statement-Ends n types next out p w going rest (inl moves) =
      moved-Ends n types next out rest moves
  after_statement-Ends n types next out p w going rest (inr (e, same, none_starts)) =
      left_behind-Ends n types next out p e w going same none_starts rest

  parse_loop-Ends :
      (g f n : ℕ) (types : List Text) (p : Parser)
      → n ≤ g
      → n < f
      → Within n types p
      → Ends types (parse_loop g f p)
  unfolding parse_loop
  parse_loop-Ends g zero n types p i h w = absurd (omega arith)
  parse_loop-Ends g (suc f) n types p i h w =
      if_rule (Ends types) (is_at_end p.tokens) (λ _. record { known = w.known; ended = tt })
        (λ going.
          after_statement-Ends n types (parse_loop g f) (parse_statement g p) p w going
            (λ k seen q less v.
              parse_loop-Ends g f k seen q (omega (arith, less, i)) (omega (arith, less, h)) v)
            (parse_statement-Steps g n types p i w))

  -- With a round for each token and one more, the loop ends.
  parse_tokens-Ends : (tokens : List Token) → Stream tokens → Ends [] (parse_tokens (ok tokens))
  unfolding parse_tokens text_mem type_index
  parse_tokens-Ends tokens s =
      parse_loop-Ends (suc (length tokens)) (suc (length tokens)) (length tokens) [] (start tokens)
        (omega arith) (omega arith)
        (record {
          stream = s;
          few = omega arith;
          before = λ e. absurd cc;
          known = λ x e. absurd (ground (arith, e));
        })

Lexes-Stream :
    (source : Text) (line column : ℕ) (tokens : List Token)
    → Lexes source line column tokens
    → Stream tokens
Lexes-Stream _ line column _ (Tokenize.last gap _ _ token h e l c) = last token e
Lexes-Stream _ line column _ (Tokenize.next gap left _ _ token tokens h t l c rest) =
    more token tokens t (Lexes-Stream left token.line _ tokens rest)

module _ {F : Type 0} ⦃d : Double F⦄ where
  Lexed-Ends :
      (source : Text) (r : Result (List Token))
      → Tokenize.Outcome source init r
      → Ends {F = F} [] (parse_tokens r)
  unfolding parse_tokens text_mem
  Lexed-Ends source (err e) h = record { known = λ x e. absurd (ground (arith, e)); ended = tt }
  Lexed-Ends source (ok tokens) h =
      parse_tokens-Ends tokens (Lexes-Stream source init.line init.column tokens h)

  pub parse-Ends : (source : Text) → (out : Outcome F) × (parse source ≡ some out) × Ends [] out
  unfolding parse
  parse-Ends source =
      let (r, lexed, outcome) = tokenize-Lexes source in
      (parse_tokens r, rw (parse, lexed) refl, Lexed-Ends source r outcome)
