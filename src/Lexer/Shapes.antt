-- ===== src/Lexer/Shapes.antt =====
-- The lexemes of the tokens, by their types.
use synthgen_core.Prelude.{
  ℕ, Text, text, Bool, true, false, not, ◌||◌, Option, none, some, ◌≡◌, ◌≢◌, refl, sym, ap, ◌∙◌, [],
  ◌∷◌, ◌++◌, append_assoc, append-nil, ◌==◌, if◌then◌else◌, if_rule, arith, ◌⊎◌, inl, inr, subst,
}
use synthgen_core.Lexer.{
  TokenType, Lexer, Scan, advance, peek, is_digit, is_alpha, is_word, l_int, l_float, l_string,
  s_gt, s_ge, s_lt, s_le, s_minus, t_error, advance_while, match_char, make_token, error_token,
  scan_string, close_string, scan_fraction, scan_exponent, scan_number, word_type,
  scan_identifier_or_keyword, symbol, symbol_map, scan_order, scan_symbol, scan_from,
}
use synthgen_core.Lexer.Steps.{
  advance_all, Reads, Reads-nothing, Reads-one, Reads-cons, Reads-append, AllOf,
  advance_while-Reads, advance_while-stops, Fraction, Exponent, scan_fraction-Reads,
  scan_exponent-Reads,
}

-- Digits, at least one if the flag is true.
abbrev pub Digits : Bool → Text → Type 0
Digits some_digit w = AllOf is_digit w × (some_digit ≡ true → w ≢ [])

-- Digits with a fraction and an exponent, which both may be missing.
pub record Number (some_digit : Bool) (t : TokenType) (w : Text) : Type 0 where
  pub digits : Text
  pub fraction : Text
  pub exponent : Text
  pub has_fraction : Bool
  pub has_exponent : Bool
  pub whole_part : Digits some_digit digits
  pub fraction_part : Fraction has_fraction fraction
  pub exponent_part : Exponent has_exponent exponent
  pub joined : w ≡ digits ++ (fraction ++ exponent)
  pub typed : t ≡ (if has_fraction || has_exponent then l_float else l_int)

pub data IsToken : TokenType → Text → Type 0 where
  word :
      (c : ℕ) (w : Text)
      → is_alpha c || c == 95 ≡ true
      → AllOf is_word w
      → IsToken (word_type (c ∷ w)) (c ∷ w)
  number :
      (c : ℕ) (w : Text) (t : TokenType) → is_digit c ≡ true → Number false t w → IsToken t (c ∷ w)
  negative : (w : Text) (t : TokenType) → Number true t w → IsToken t (45 ∷ w)
  quoted : (body : Text) → AllOf (λ c. not (c == 39)) body → IsToken l_string (39 ∷ body ++ 39 ∷ [])
  symbol_of : (c : ℕ) (t : TokenType) → symbol c symbol_map ≡ some t → IsToken t (c ∷ [])
  greater : IsToken s_gt (text ">")
  greater_eq : IsToken s_ge (text ">=")
  less : IsToken s_lt (text "<")
  less_eq : IsToken s_le (text "<=")
  minus : IsToken s_minus (text "-")

pub lexeme-advance_all : (w : Text) (k : Lexer) → (advance_all w k).lexeme ≡ k.lexeme ++ w
unfolding advance
lexeme-advance_all [] k = sym (append-nil k.lexeme)
lexeme-advance_all (c ∷ w) k = lexeme-advance_all w (advance c k) ∙ append_assoc k.lexeme (c ∷ []) w

-- Either an error, or a token of which the first character was read before.
abbrev pub Scanned : ℕ → Text → Lexer → Scan → Type 0
Scanned c source k out =
    (out.0.type_of ≡ t_error)
    ⊎ (Reads (λ w. IsToken out.0.type_of (c ∷ w)) source k out.1 out.2
        × (out.0 ≡ make_token out.0.type_of out.1))

cons-ne-nil : (c : ℕ) (w : Text) → c ∷ w ≡ [] → ⊥
cons-ne-nil c w e = cc

Digits-Reads :
    (source : Text) (k : Lexer)
    → Reads
        (Digits (is_digit (peek source)))
        source
        k
        (advance_while is_digit source k).0
        (advance_while is_digit source k).1
unfolding advance_while
Digits-Reads [] k = Reads-nothing (Digits false) [] k (tt, λ e. absurd (ground arith))
Digits-Reads (c ∷ rest) k = at (is_digit c) refl
  where
    next : Lexer × Text
    next = advance_while is_digit rest (advance c k)

    Opens : Bool → Lexer × Text → Type 0
    Opens b out = Reads (Digits b) (c ∷ rest) k out.0 out.1

    at : (b : Bool) → is_digit c ≡ b → Opens b (if b then next else (k, c ∷ rest))
    at true e =
        Reads-cons (Digits true) (AllOf is_digit) c rest k next.0 next.1
          (λ w h. ((e, h), λ f g. cons-ne-nil c w g))
          (advance_while-Reads is_digit rest (advance c k))
    at false e = Reads-nothing (Digits false) (c ∷ rest) k (tt, λ f. absurd (ground arith))

abbrev Tail : Bool → Bool → Text → Type 0
Tail b1 b2 w = (f : Text) × (e : Text) × (w ≡ f ++ e) × Fraction b1 f × Exponent b2 e

abbrev ReadsNumber : Bool → Text → Lexer → Scan → Type 0
ReadsNumber b source k out =
    Reads (Number b out.0.type_of) source k out.1 out.2 × (out.0 ≡ make_token out.0.type_of out.1)

scan_number-Reads :
    (source : Text) (k : Lexer)
    → ReadsNumber (is_digit (peek source)) source k (scan_number source k)
unfolding scan_number make_token
scan_number-Reads source k =
    let (head, rest) = advance_while is_digit source k in
    let (fraction, middle, after) = scan_fraction rest head in
    let (exponent, last, left) = scan_exponent after middle in
    let ds = Digits-Reads source k in
    let fs = scan_fraction-Reads rest head in
    let es = scan_exponent-Reads after middle in
    (
      Reads-append
          (Number (is_digit (peek source)) (if fraction || exponent then l_float else l_int))
          (Digits (is_digit (peek source))) (Tail fraction exponent) source k head rest last left
          (λ v w d (f, e, eq, fp, ep). record {
            digits = v;
            fraction = f;
            exponent = e;
            has_fraction = fraction;
            has_exponent = exponent;
            whole_part = d;
            fraction_part = fp;
            exponent_part = ep;
            joined = ap (λ u. v ++ u) eq;
            typed = refl;
          })
          ds
          (Reads-append (Tail fraction exponent) (Fraction fraction) (Exponent exponent) rest head
            middle after last left (λ v w f e. (v, w, refl, f, e)) fs es),
      refl,
    )

-- After the opening quote.
scan_string-Scanned : (source : Text) (k : Lexer) → Scanned 39 source k (scan_string source k)
unfolding scan_string close_string error_token make_token
scan_string-Scanned source k =
    let (body, rest) = advance_while (λ c. not (c == 39)) source k in
    close rest body refl (advance_while-Reads (λ c. not (c == 39)) source k)
  where
    close :
        (rest : Text) (body : Lexer)
        → (advance_while (λ c. not (c == 39)) source k).1 ≡ rest
        → Reads (AllOf (λ c. not (c == 39))) source k body rest
        → Scanned 39 source k (close_string rest body)
    close [] body e r = inl refl
    close (c ∷ rest) body e r =
        let stop = advance_while-stops (λ c. not (c == 39)) source k c rest e in
        let quote : c ≡ 39 = ground (arith, stop) in
        inr (
          Reads-append (λ w. IsToken l_string (39 ∷ w)) (AllOf (λ c. not (c == 39)))
              (λ w. w ≡ 39 ∷ []) source k body (c ∷ rest) (advance c body) rest
              (λ v w all eq.
                subst (λ (u : Text). IsToken l_string (39 ∷ v ++ u)) (sym eq) (quoted v all))
              r (Reads-one (λ w. w ≡ 39 ∷ []) c rest body (ap (λ (d : ℕ). d ∷ []) quote)),
          refl,
        )

scan_identifier-Scanned :
    (c : ℕ) (source : Text) (k : Lexer)
    → is_alpha c || c == 95 ≡ true
    → k.lexeme ≡ c ∷ []
    → Scanned c source k (scan_identifier_or_keyword source k)
unfolding scan_identifier_or_keyword make_token
scan_identifier-Scanned c source k first e =
    let (last, left) = advance_while is_word source k in
    let r = advance_while-Reads is_word source k in
    let lexeme : last.lexeme ≡ c ∷ r.taken =
      ap (λ (l : Lexer). l.lexeme) r.moved
      ∙ lexeme-advance_all r.taken k
      ∙ ap (λ (l : Text). l ++ r.taken) e in
    inr (
      record {
        taken = r.taken;
        split = r.split;
        moved = r.moved;
        shape =
            subst (λ (l : Text). IsToken (word_type l) (c ∷ r.taken)) (sym lexeme)
              (word c r.taken first r.shape);
      },
      refl,
    )

scan_order-Scanned :
    (c : ℕ) (wide narrow : TokenType) (source : Text) (k : Lexer)
    → IsToken wide (c ∷ text "=")
    → IsToken narrow (c ∷ [])
    → Scanned c source k (scan_order wide narrow source k)
unfolding scan_order match_char make_token text
scan_order-Scanned c wide narrow [] k w n =
    inr (Reads-nothing (λ v. IsToken narrow (c ∷ v)) [] k n, refl)
scan_order-Scanned c wide narrow (d ∷ rest) k w n =
    if_rule Ordered (d == 61)
      (λ e.
        let same : d ≡ 61 = ground (arith, e) in
        inr (
          Reads-one (λ v. IsToken wide (c ∷ v)) d rest k
              (subst (λ (x : ℕ). IsToken wide (c ∷ x ∷ [])) (sym same) w),
          refl,
        ))
      (λ e. inr (Reads-nothing (λ v. IsToken narrow (c ∷ v)) (d ∷ rest) k n, refl))
  where
    Ordered : Bool × Lexer × Text → Type 0
    Ordered out =
        Scanned c (d ∷ rest) k (make_token (if out.0 then wide else narrow) out.1, out.1, out.2)

-- A token that consists of the first character only.
Scanned-one :
    (c : ℕ) (t : TokenType) (source : Text) (k : Lexer)
    → IsToken t (c ∷ [])
    → Scanned c source k (make_token t k, k, source)
unfolding make_token
Scanned-one c t source k h = inr (Reads-nothing (λ v. IsToken t (c ∷ v)) source k h, refl)

Scanned-Number :
    (c : ℕ) (source : Text) (k : Lexer)
    → ((t : TokenType) (w : Text) → Number (is_digit (peek source)) t w → IsToken t (c ∷ w))
    → Scanned c source k (scan_number source k)
Scanned-Number c source k f =
    let (r, made) = scan_number-Reads source k in
    inr (
      record {
        taken = r.taken;
        split = r.split;
        moved = r.moved;
        shape = f (scan_number source k).0.type_of r.taken r.shape;
      },
      made,
    )

scan_symbol-Scanned :
    (c : ℕ) (source : Text) (k : Lexer) → Scanned c source k (scan_symbol c source k)
unfolding scan_symbol text
scan_symbol-Scanned c source k =
    if_rule (Scanned c source k) (c == 39)
      (λ e.
        subst (λ (d : ℕ). Scanned d source k (scan_string source k)) (sym (same 39 e))
          (scan_string-Scanned source k))
      (λ _.
        if_rule (Scanned c source k) (c == 62)
          (λ e.
            subst (λ (d : ℕ). Scanned d source k (scan_order s_ge s_gt source k)) (sym (same 62 e))
              (scan_order-Scanned 62 s_ge s_gt source k greater_eq greater))
          (λ _.
            if_rule (Scanned c source k) (c == 60)
              (λ e.
                subst (λ (d : ℕ). Scanned d source k (scan_order s_le s_lt source k))
                  (sym (same 60 e)) (scan_order-Scanned 60 s_le s_lt source k less_eq less))
              (λ _.
                if_rule (Scanned c source k) (c == 45)
                  (λ e.
                    if_rule (Scanned c source k) (is_digit (peek source))
                      (λ d. Scanned-Number c source k (signed (same 45 e) d))
                      (λ _.
                        Scanned-one c s_minus source k
                          (subst (λ (x : ℕ). IsToken s_minus (x ∷ [])) (sym (same 45 e)) minus)))
                  (λ _. other (symbol c symbol_map) refl))))
  where
    same : (d : ℕ) → c == d ≡ true → c ≡ d
    same d e = ground (arith, e)

    signed :
        c ≡ 45
        → is_digit (peek source) ≡ true
        → (t : TokenType) (w : Text) → Number (is_digit (peek source)) t w
        → IsToken t (c ∷ w)
    signed e d t w n =
        subst (λ (x : ℕ). IsToken t (x ∷ w)) (sym e) (negative w t (subst (λ b. Number b t w) d n))

    other :
        (found : Option TokenType)
        → symbol c symbol_map ≡ found
        → Scanned c source k (elim found [
          | some t ↦ (make_token t k, k, source)
          | none ↦ (error_token (text "Unexpected character: '" ++ (c ∷ text "'")) k, k, source)
        ])
    other (some t) e = Scanned-one c t source k (symbol_of c t e)
    other none e = inl (unfold error_token in refl)

-- The digits of a number that has its first digit before them.
Number-weaken : (b : Bool) (t : TokenType) (w : Text) → Number b t w → Number false t w
Number-weaken b t w n = record {
  digits = n.digits;
  fraction = n.fraction;
  exponent = n.exponent;
  has_fraction = n.has_fraction;
  has_exponent = n.has_exponent;
  whole_part = (n.whole_part.0, λ e. absurd (ground arith));
  fraction_part = n.fraction_part;
  exponent_part = n.exponent_part;
  joined = n.joined;
  typed = n.typed;
}

pub scan_from-Scanned :
    (c : ℕ) (source : Text) (k : Lexer)
    → k.lexeme ≡ c ∷ []
    → Scanned c source k (scan_from c source k)
unfolding scan_from
scan_from-Scanned c source k e =
    if_rule (Scanned c source k) (is_alpha c || c == 95)
      (λ first. scan_identifier-Scanned c source k first e)
      (λ _.
        if_rule (Scanned c source k) (is_digit c)
          (λ d.
            Scanned-Number c source k
              (λ t w n. number c w t d (Number-weaken (is_digit (peek source)) t w n)))
          (λ _. scan_symbol-Scanned c source k))
