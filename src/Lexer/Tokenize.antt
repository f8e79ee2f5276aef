-- ===== src/Lexer/Tokenize.antt =====
-- A whole run of the lexer.
use synthgen_core.Prelude.{
  ℕ, zero, suc, ◌<◌, Text, text, true, false, Option, none, some, ◌≡◌, refl, sym, ap, ◌∙◌, List, [],
  ◌∷◌, ◌++◌, append-nil, length, length-append, ◌==◌, if◌then◌else◌, arith, inl, inr, subst,
}
use synthgen_core.Common.Result.{Result, ok, err, fail, syntax_error}
use synthgen_core.Lexer.{
  TokenType, Token, Lexer, Scan, advance, begin, skip, make_token, type_index, t_eof, t_error,
  scan_from, scan_rest, scan_token, tokenize_from, tokenize, init,
}
use synthgen_core.Lexer.Steps.{advance_all, Gap, skip-Reads}
use synthgen_core.Lexer.Plain.{is_plain, IsToken-plain}
use synthgen_core.Lexer.Shapes.{IsToken, Scanned, scan_from-Scanned, lexeme-advance_all}

-- The line and the column that a text leads to.
abbrev pub line_after : ℕ → Text → ℕ
line_after line [] = line
line_after line (c ∷ w) = line_after (if c == 10 then suc line else line) w

abbrev pub column_after : ℕ → Text → ℕ
column_after column [] = column
column_after column (c ∷ w) = column_after (if c == 10 then 1 else suc column) w

line-advance_all : (w : Text) (k : Lexer) → (advance_all w k).line ≡ line_after k.line w
unfolding advance
line-advance_all [] k = refl
line-advance_all (c ∷ w) k = line-advance_all w (advance c k)

column-advance_all : (w : Text) (k : Lexer) → (advance_all w k).column ≡ column_after k.column w
unfolding advance
column-advance_all [] k = refl
column-advance_all (c ∷ w) k = column-advance_all w (advance c k)

token_column-advance_all : (w : Text) (k : Lexer) → (advance_all w k).token_column ≡ k.token_column
unfolding advance
token_column-advance_all [] k = refl
token_column-advance_all (c ∷ w) k = token_column-advance_all w (advance c k)

-- The source, from a line and a column on, is the lexemes of the tokens with gaps between them.
pub data Lexes : Text → ℕ → ℕ → List Token → Type 0 where
  last :
      (gap : Text) (line column : ℕ) (token : Token)
      → Gap false gap
      → token.type_of ≡ t_eof
      → token.line ≡ line_after line gap
      → token.column ≡ column_after column gap
      → Lexes gap line column (token ∷ [])
  next :
      (gap left : Text) (line column : ℕ) (token : Token) (tokens : List Token)
      → Gap false gap
      → IsToken token.type_of token.lexeme
      → token.line ≡ line_after (line_after line gap) token.lexeme
      → token.column ≡ column_after column gap
      → Lexes left token.line (column_after token.column token.lexeme) tokens
      → Lexes (gap ++ (token.lexeme ++ left)) line column (token ∷ tokens)

-- A token that was read after a gap, and the lexer after it.
pub record Placed (k : Lexer) (gap : Text) (token : Token) (after : Lexer) : Type 0 where
  pub on_line : token.line ≡ line_after (line_after k.line gap) token.lexeme
  pub at_column : token.column ≡ column_after k.column gap
  pub next_line : after.line ≡ token.line
  pub next_column : after.column ≡ column_after token.column token.lexeme

-- What one call of scan_token gives: the end, an error, or a token after a gap.
pub data Scans (source : Text) (k : Lexer) : Scan → Type 0 where
  at_end :
      (token : Token) (after : Lexer)
      → Gap false source
      → token.type_of ≡ t_eof
      → token.line ≡ line_after k.line source
      → token.column ≡ column_after k.column source
      → Scans source k (token, after, [])
  at_error : (out : Scan) → out.0.type_of ≡ t_error → Scans source k out
  at_token :
      (gap : Text) (c : ℕ) (w : Text) (out : Scan)
      → source ≡ gap ++ (out.0.lexeme ++ out.2)
      → out.0.lexeme ≡ c ∷ w
      → Gap false gap
      → IsToken out.0.type_of out.0.lexeme
      → Placed k gap out.0 out.1
      → Scans source k out

make_token-lexeme :
    (t : TokenType) (c : ℕ) (w : Text) (blank : Lexer)
    → (make_token t (advance_all (c ∷ w) (begin blank))).lexeme ≡ c ∷ w
unfolding make_token begin
make_token-lexeme t c w blank = lexeme-advance_all (c ∷ w) (begin blank)

make_token-Placed :
    (k : Lexer) (gap : Text) (t : TokenType) (c : ℕ) (w : Text)
    → let after = advance_all (c ∷ w) (begin (advance_all gap k)) in
      Placed k gap (make_token t after) after
unfolding make_token begin
make_token-Placed k gap t c w =
    let blank : Lexer = advance_all gap k in
    let after : Lexer = advance_all (c ∷ w) (begin blank) in
    let same : after.lexeme ≡ c ∷ w = lexeme-advance_all (c ∷ w) (begin blank) in
    let line : blank.line ≡ line_after k.line gap = line-advance_all gap k in
    let column : blank.column ≡ column_after k.column gap = column-advance_all gap k in
    let start : after.token_column ≡ blank.column =
      token_column-advance_all (c ∷ w) (begin blank) in
    record {
      on_line =
          line-advance_all (c ∷ w) (begin blank)
          ∙ ap (λ (n : ℕ). line_after n (c ∷ w)) line
          ∙ ap (line_after (line_after k.line gap)) (sym same);
      at_column = start ∙ column;
      next_line = refl;
      next_column =
          column-advance_all (c ∷ w) (begin blank)
          ∙ ap (λ (n : ℕ). column_after n (c ∷ w)) (sym start)
          ∙ ap (column_after after.token_column) (sym same);
    }

-- A token after a gap, where the parts of the source are known by equations.
token-Scans :
    (source : Text) (k : Lexer) (gap : Text) (c : ℕ) (w : Text) (blank : Lexer) (left : Text)
    (out : Scan)
    → Gap false gap
    → source ≡ gap ++ c ∷ left
    → blank ≡ advance_all gap k
    → left ≡ w ++ out.2
    → out.1 ≡ advance_all w (advance c (begin blank))
    → out.0 ≡ make_token out.0.type_of out.1
    → IsToken out.0.type_of (c ∷ w)
    → Scans source k out
token-Scans source k gap c w blank left out h split moved rest after made shape =
    let done : out.1 ≡ advance_all (c ∷ w) (begin (advance_all gap k)) =
      after ∙ ap (λ (b : Lexer). advance_all (c ∷ w) (begin b)) moved in
    let token = made ∙ ap (make_token out.0.type_of) done in
    let lexeme : out.0.lexeme ≡ c ∷ w =
      ap (λ (t : Token). t.lexeme) token
      ∙ make_token-lexeme out.0.type_of c w (advance_all gap k) in
    at_token gap c w out
      (split
        ∙ ap (λ (l : Text). gap ++ c ∷ l) rest
        ∙ ap (λ (l : Text). gap ++ (l ++ out.2)) (sym lexeme))
      lexeme h (subst (IsToken out.0.type_of) (sym lexeme) shape)
      (subst (λ (t : Token). Placed k gap t out.1) (sym token)
        (subst
          (Placed k gap
            (make_token out.0.type_of (advance_all (c ∷ w) (begin (advance_all gap k)))))
          (sym done) (make_token-Placed k gap out.0.type_of c w)))

begin-lexeme : (c : ℕ) (blank : Lexer) → (advance c (begin blank)).lexeme ≡ c ∷ []
unfolding begin advance
begin-lexeme c blank = refl

end-Scans :
    (source : Text) (k blank : Lexer)
    → Gap false source
    → blank ≡ advance_all source k
    → Scans source k (make_token t_eof (begin blank), begin blank, [])
unfolding begin make_token
end-Scans source k blank h moved =
    at_end (make_token t_eof (begin blank)) (begin blank) h refl
      (ap (λ (b : Lexer). b.line) moved ∙ line-advance_all source k)
      (ap (λ (b : Lexer). b.column) moved ∙ column-advance_all source k)

scan_rest-Scans :
    (source : Text) (k : Lexer) (gap : Text) (blank : Lexer) (rest : Text)
    → Gap false gap
    → source ≡ gap ++ rest
    → blank ≡ advance_all gap k
    → Scans source k (scan_rest blank rest)
unfolding scan_rest
scan_rest-Scans source k gap blank [] h split moved =
    let same : source ≡ gap = split ∙ append-nil gap in
    end-Scans source k blank (subst (Gap false) (sym same) h)
      (moved ∙ ap (λ (w : Text). advance_all w k) (sym same))
scan_rest-Scans source k gap blank (c ∷ left) h split moved =
    at (scan_from c left (advance c (begin blank)))
      (scan_from-Scanned c left (advance c (begin blank)) (begin-lexeme c blank))
  where
    at : (out : Scan) → Scanned c left (advance c (begin blank)) out → Scans source k out
    at out (inl e) = at_error out e
    at out (inr (r, made)) =
        token-Scans source k gap c r.taken blank left out h split moved r.split r.moved made r.shape

scan_token-Scans : (source : Text) (k : Lexer) → Scans source k (scan_token source k)
unfolding scan_token
scan_token-Scans source k =
    let gap = skip-Reads source k in
    scan_rest-Scans source k gap.taken (skip false source k).0 (skip false source k).1 gap.shape
      gap.split gap.moved

-- What the loop gives: an error of the lexer, or tokens that the source consists of.
abbrev pub Outcome : Text → Lexer → Result (List Token) → Type 0
Outcome source k (err e) = e.code ≡ syntax_error
Outcome source k (ok tokens) = Lexes source k.line k.column tokens

-- The result of the loop after a call of scan_token.
abbrev loop_result : Scan → Option (Result (List Token)) → Option (Result (List Token))
loop_result out rest =
    if type_index out.0.type_of == type_index t_error
    then some (fail syntax_error out.0.lexeme (text "lexer"))
    else if type_index out.0.type_of == type_index t_eof
    then some (ok (out.0 ∷ []))
    else elim rest [
      | none ↦ none
      | some (err e) ↦ some (err e)
      | some (ok tokens) ↦ some (ok (out.0 ∷ tokens))
    ]

tokenize_from-suc :
    (f : ℕ) (source : Text) (k : Lexer)
    → tokenize_from (suc f) source k
      ≡ loop_result
          (scan_token source k)
          (tokenize_from f (scan_token source k).2 (scan_token source k).1)
unfolding tokenize_from
tokenize_from-suc f source k = refl

abbrev Finds : Text → Lexer → Option (Result (List Token)) → Type 0
Finds source k o = (r : Result (List Token)) × (o ≡ some r) × Outcome source k r

-- The result with one more token.
abbrev cons_token : Token → Result (List Token) → Result (List Token)
cons_token token (err e) = err e
cons_token token (ok tokens) = ok (token ∷ tokens)

Outcome-cons :
    (source : Text) (k : Lexer) (out : Scan) (gap : Text)
    → source ≡ gap ++ (out.0.lexeme ++ out.2)
    → Gap false gap
    → IsToken out.0.type_of out.0.lexeme
    → Placed k gap out.0 out.1
    → (r : Result (List Token)) → Outcome out.2 out.1 r
    → Outcome source k (cons_token out.0 r)
Outcome-cons source k out gap split h shape placed (err e) outcome = outcome
Outcome-cons source k out gap split h shape placed (ok tokens) outcome =
    subst (λ (s : Text). Lexes s k.line k.column (out.0 ∷ tokens)) (sym split)
      (next gap out.2 k.line k.column out.0 tokens h shape placed.on_line placed.at_column (
        subst (λ n. Lexes out.2 out.0.line n tokens) placed.next_column
          (subst (λ n. Lexes out.2 n out.1.column tokens) placed.next_line outcome)))

-- After a token that is neither an error nor the end.
loop_result-plain :
    (out : Scan) (r : Result (List Token))
    → is_plain out.0.type_of ≡ true
    → loop_result out (some r) ≡ some (cons_token out.0 r)
unfolding type_index
loop_result-plain out (ok tokens) plain = ground (arith, plain)
loop_result-plain out (err e) plain = ground (arith, plain)

loop_result-eof :
    (out : Scan) (rest : Option (Result (List Token)))
    → out.0.type_of ≡ t_eof
    → loop_result out rest ≡ some (ok (out.0 ∷ []))
unfolding type_index
loop_result-eof out rest e = let i : type_index out.0.type_of ≡ 64 = ap type_index e in rw i refl

loop_result-error :
    (out : Scan) (rest : Option (Result (List Token)))
    → out.0.type_of ≡ t_error
    → loop_result out rest ≡ some (fail syntax_error out.0.lexeme (text "lexer"))
unfolding type_index
loop_result-error out rest e = let i : type_index out.0.type_of ≡ 65 = ap type_index e in rw i refl

-- A call of scan_token that gives the end, an error or a token, and then what the loop gives after
-- the token.
scan_step :
    (source : Text) (k : Lexer) (out : Scan) (rest : Option (Result (List Token)))
    → Scans source k out
    → ((gap : Text) (c : ℕ) (w : Text)
        → source ≡ gap ++ (out.0.lexeme ++ out.2)
        → out.0.lexeme ≡ c ∷ w
        → Finds out.2 out.1 rest)
    → Finds source k (loop_result out rest)
scan_step source k out rest (at_end token after h e line column) more = (
  ok (token ∷ []),
  loop_result-eof (token, after, []) rest e,
  last source k.line k.column token h e line column,
)
scan_step source k out rest (at_error scan e) more =
    (fail syntax_error scan.0.lexeme (text "lexer"), loop_result-error scan rest e, refl)
scan_step source k out rest (at_token gap c w scan split lexeme h shape placed) more =
    let (r, found, outcome) = more gap c w split lexeme in
    let plain = IsToken-plain scan.0.type_of scan.0.lexeme shape in
    (
      cons_token scan.0 r,
      rw found (loop_result-plain scan r plain),
      Outcome-cons source k scan gap split h shape placed r outcome,
    )

tokenize_from-Finds :
    (f : ℕ) (source : Text) (k : Lexer)
    → length source < f
    → Finds source k (tokenize_from f source k)
tokenize_from-Finds zero source k h = absurd (omega arith)
tokenize_from-Finds (suc f) source k h = rw (tokenize_from-suc f source k) (
    scan_step source k (scan_token source k)
      (tokenize_from f (scan_token source k).2 (scan_token source k).1) (scan_token-Scans source k)
      (λ gap c w split lexeme.
        tokenize_from-Finds f (scan_token source k).2 (scan_token source k).1
          (shorter gap c w split lexeme)))
  where
    shorter :
        (gap : Text) (c : ℕ) (w : Text)
        → source ≡ gap ++ ((scan_token source k).0.lexeme ++ (scan_token source k).2)
        → (scan_token source k).0.lexeme ≡ c ∷ w
        → length (scan_token source k).2 < f
    shorter gap c w split lexeme =
        let left : Text = (scan_token source k).2 in
        let whole : length source ≡ length (gap ++ (c ∷ w ++ left)) =
          ap length split ∙ ap (λ (l : Text). length (gap ++ (l ++ left))) lexeme in
        omega (arith, whole, length-append gap (c ∷ w ++ left), length-append w left)

-- `tokenize` always finishes, with a round for each character and one more. It gives a syntax error,
-- or tokens such that the source is their lexemes in order with gaps of blanks and comments between
-- them. Each token but the last has a lexeme of its type, and the last one is the end of the source.
-- The column of a token is where its lexeme begins, and its line is where its lexeme ends.
pub tokenize-Lexes :
    (source : Text) → (r : Result (List Token)) × (tokenize source ≡ some r) × Outcome source init r
unfolding tokenize
tokenize-Lexes source = tokenize_from-Finds (suc (length source)) source init (omega arith)
