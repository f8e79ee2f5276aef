-- ===== src/Lexer/Steps.antt =====
-- The text that each loop and part of the lexer reads.
use synthgen_core.Prelude.{
  ℕ, Text, Bool, true, false, not, ◌&&◌, ◌||◌, ◌≡◌, ◌≢◌, refl, sym, ap, ◌∙◌, [], ◌∷◌, ◌++◌,
  append_assoc, All, ◌==◌, if_rule, arith, ◌⊎◌, inl, inr, subst,
}
use synthgen_core.Lexer.{
  Lexer, advance, peek, is_digit, is_blank, skip, advance_while, skip_sign, scan_fraction,
  scan_exponent,
}

abbrev pub advance_all : Text → Lexer → Lexer
advance_all [] k = k
advance_all (c ∷ w) k = advance_all w (advance c k)

advance_all-append :
    (v w : Text) (k : Lexer) → advance_all (v ++ w) k ≡ advance_all w (advance_all v k)
advance_all-append [] w k = refl
advance_all-append (c ∷ v) w k = advance_all-append v w (advance c k)

-- The lexer reads a text with the property `P` from the source, up to `left`.
pub record Reads (P : Text → Type 0) (source : Text) (k after : Lexer) (left : Text) : Type 0 where
  pub taken : Text
  pub split : source ≡ taken ++ left
  pub moved : after ≡ advance_all taken k
  pub shape : P taken

module _ (P : Text → Type 0) where
  pub Reads-nothing : (source : Text) (k : Lexer) → P [] → Reads P source k k source
  Reads-nothing source k h = record { taken = []; split = refl; moved = refl; shape = h }

  pub Reads-one :
      (c : ℕ) (rest : Text) (k : Lexer) → P (c ∷ []) → Reads P (c ∷ rest) k (advance c k) rest
  Reads-one c rest k h = record { taken = c ∷ []; split = refl; moved = refl; shape = h }

  pub Reads-cons :
      (Q : Text → Type 0) (c : ℕ) (rest : Text) (k after : Lexer) (left : Text)
      → ((w : Text) → Q w → P (c ∷ w))
      → Reads Q rest (advance c k) after left
      → Reads P (c ∷ rest) k after left
  Reads-cons Q c rest k after left f r = record {
    taken = c ∷ r.taken;
    split = ap (λ w. c ∷ w) r.split;
    moved = r.moved;
    shape = f r.taken r.shape;
  }

  pub Reads-append :
      (Q R : Text → Type 0) (source : Text) (k mid : Lexer) (rest : Text) (after : Lexer)
      (left : Text)
      → ((v w : Text) → Q v → R w → P (v ++ w))
      → Reads Q source k mid rest
      → Reads R rest mid after left
      → Reads P source k after left
  Reads-append Q R source k mid rest after left f q r = record {
    taken = q.taken ++ r.taken;
    split = q.split ∙ ap (λ w. q.taken ++ w) r.split ∙ sym (append_assoc q.taken r.taken left);
    moved = r.moved ∙ ap (advance_all r.taken) q.moved ∙ sym (advance_all-append q.taken r.taken k);
    shape = f q.taken r.taken q.shape r.shape;
  }

abbrev pub AllOf : (ℕ → Bool) → Text → Type 0
AllOf p w = All (λ c. p c ≡ true) w

abbrev ReadsPair : (Text → Type 0) → Text → Lexer → Lexer × Text → Type 0
ReadsPair P source k out = Reads P source k out.0 out.1

pub advance_while-Reads :
    (p : ℕ → Bool) (source : Text) (k : Lexer)
    → Reads (AllOf p) source k (advance_while p source k).0 (advance_while p source k).1
unfolding advance_while
advance_while-Reads p [] k = Reads-nothing (AllOf p) [] k tt
advance_while-Reads p (c ∷ rest) k =
    if_rule (ReadsPair (AllOf p) (c ∷ rest) k) (p c)
      (λ e.
        Reads-cons (AllOf p) (AllOf p) c rest k (advance_while p rest (advance c k)).0
          (advance_while p rest (advance c k)).1 (λ w h. (e, h))
          (advance_while-Reads p rest (advance c k)))
      (λ e. Reads-nothing (AllOf p) (c ∷ rest) k tt)

-- The character at which a loop stops does not have its property.
abbrev StopsAt : (ℕ → Bool) → Lexer × Text → Type 0
StopsAt p out = (c : ℕ) (left : Text) → out.1 ≡ c ∷ left → p c ≡ false

pub advance_while-stops :
    (p : ℕ → Bool) (source : Text) (k : Lexer) → StopsAt p (advance_while p source k)
unfolding advance_while
advance_while-stops p [] k = λ c left e. absurd (ground arith)
advance_while-stops p (d ∷ rest) k =
    if_rule (StopsAt p) (p d) (λ e. advance_while-stops p rest (advance d k))
      (λ stop c left e. ground arith)

-- What may stand between two tokens; inside a comment if the flag is true.
pub data Gap : Bool → Text → Type 0 where
  end : (comment : Bool) → Gap comment []
  blank : (c : ℕ) (w : Text) → is_blank c ≡ true → Gap false w → Gap false (c ∷ w)
  dashes : (w : Text) → peek w ≡ 45 → Gap true w → Gap false (45 ∷ w)
  inside : (c : ℕ) (w : Text) → c ≢ 10 → Gap true w → Gap true (c ∷ w)
  newline : (w : Text) → Gap false w → Gap true (10 ∷ w)

-- A gap that, inside a comment, begins as the source does.
abbrev GapOf : Bool → Text → Text → Type 0
GapOf comment source w = Gap comment w × (comment ≡ true → peek w ≡ peek source)

Gap-comment : (b : Bool) (c : ℕ) (w : Text) → c == 10 ≡ b → Gap (not b) w → Gap true (c ∷ w)
Gap-comment true c w e h =
    let same : c ≡ 10 = ground (arith, e) in
    subst (λ (d : ℕ). Gap true (d ∷ w)) (sym same) (newline w h)
Gap-comment false c w e h = inside c w (ground (arith, e)) h

Gap-between :
    (b : Bool) (c : ℕ) (rest w : Text)
    → (c == 45 && peek rest == 45) ≡ b
    → is_blank c || b ≡ true
    → GapOf b rest w
    → Gap false (c ∷ w)
Gap-between true c rest w e h (gap, first) =
    let same : c ≡ 45 = ground (arith, e) in
    let second : peek rest ≡ 45 = ground (arith, e) in
    subst (λ (d : ℕ). Gap false (d ∷ w)) (sym same) (dashes w (first refl ∙ second) gap)
Gap-between false c rest w e h (gap, first) = blank c w (ground (arith, h)) gap

skip-GapOf :
    (comment : Bool) (source : Text) (k : Lexer)
    → ReadsPair (GapOf comment source) source k (skip comment source k)
unfolding skip
skip-GapOf comment [] k = Reads-nothing (GapOf comment []) [] k (end comment, λ e. refl)
skip-GapOf true (c ∷ rest) k =
    Reads-cons (GapOf true (c ∷ rest)) (GapOf (not (c == 10)) rest) c rest k
      (skip (not (c == 10)) rest (advance c k)).0 (skip (not (c == 10)) rest (advance c k)).1
      (λ w h. (Gap-comment (c == 10) c w refl h.0, λ e. refl))
      (skip-GapOf (not (c == 10)) rest (advance c k))
skip-GapOf false (c ∷ rest) k =
    let comment = c == 45 && peek rest == 45 in
    if_rule (ReadsPair (GapOf false (c ∷ rest)) (c ∷ rest) k) (is_blank c || comment)
      (λ e.
        Reads-cons (GapOf false (c ∷ rest)) (GapOf comment rest) c rest k
          (skip comment rest (advance c k)).0 (skip comment rest (advance c k)).1
          (λ w h. (Gap-between comment c rest w refl e h, λ f. absurd (ground arith)))
          (skip-GapOf comment rest (advance c k)))
      (λ e.
        Reads-nothing (GapOf false (c ∷ rest)) (c ∷ rest) k (end false, λ f. absurd (ground arith)))

pub skip-Reads :
    (source : Text) (k : Lexer)
    → Reads (Gap false) source k (skip false source k).0 (skip false source k).1
skip-Reads source k =
    let r = skip-GapOf false source k in
    record { taken = r.taken; split = r.split; moved = r.moved; shape = r.shape.0 }

-- The sign of an exponent, or nothing.
abbrev IsSign : Text → Type 0
IsSign w = (w ≡ []) ⊎ ((c : ℕ) × (w ≡ c ∷ []) × (c == 43 || c == 45 ≡ true))

skip_sign-Reads : (source : Text) (k : Lexer) → ReadsPair IsSign source k (skip_sign source k)
unfolding skip_sign
skip_sign-Reads [] k = Reads-nothing IsSign [] k (inl refl)
skip_sign-Reads (c ∷ rest) k =
    if_rule (ReadsPair IsSign (c ∷ rest) k) (c == 43 || c == 45)
      (λ e. Reads-one IsSign c rest k (inr (c, refl, e)))
      (λ e. Reads-nothing IsSign (c ∷ rest) k (inl refl))

-- A fraction is a '.' and digits; an exponent a letter, a sign or none, and digits.
pub data Fraction : Bool → Text → Type 0 where
  whole : Fraction false []
  point : (digits : Text) → AllOf is_digit digits → Fraction true (46 ∷ digits)

pub data Exponent : Bool → Text → Type 0 where
  plain : Exponent false []
  power :
      (letter : ℕ) (sign digits : Text)
      → letter == 101 || letter == 69 ≡ true
      → IsSign sign
      → AllOf is_digit digits
      → Exponent true (letter ∷ sign ++ digits)

-- A part of a number that may be missing.
abbrev ReadsPart : (Bool → Text → Type 0) → Text → Lexer → Bool × Lexer × Text → Type 0
ReadsPart P source k out = Reads (P out.0) source k out.1 out.2

pub scan_fraction-Reads :
    (source : Text) (k : Lexer) → ReadsPart Fraction source k (scan_fraction source k)
unfolding scan_fraction
scan_fraction-Reads [] k = Reads-nothing (Fraction false) [] k whole
scan_fraction-Reads (c ∷ rest) k =
    if_rule (ReadsPart Fraction (c ∷ rest) k) (c == 46 && not (peek rest == 46))
      (λ e.
        let same : c ≡ 46 = ground (arith, e) in
        Reads-cons (Fraction true) (AllOf is_digit) c rest k
          (advance_while is_digit rest (advance c k)).0
          (advance_while is_digit rest (advance c k)).1
          (λ w h. subst (λ (d : ℕ). Fraction true (d ∷ w)) (sym same) (point w h))
          (advance_while-Reads is_digit rest (advance c k)))
      (λ e. Reads-nothing (Fraction false) (c ∷ rest) k whole)

abbrev SignedDigits : Text → Type 0
SignedDigits w =
    (sign : Text) × (digits : Text) × (w ≡ sign ++ digits) × IsSign sign × AllOf is_digit digits

pub scan_exponent-Reads :
    (source : Text) (k : Lexer) → ReadsPart Exponent source k (scan_exponent source k)
unfolding scan_exponent
scan_exponent-Reads [] k = Reads-nothing (Exponent false) [] k plain
scan_exponent-Reads (c ∷ rest) k =
    let (signed, unsigned) = skip_sign rest (advance c k) in
    let (last, left) = advance_while is_digit unsigned signed in
    if_rule (ReadsPart Exponent (c ∷ rest) k) (c == 101 || c == 69)
      (λ e.
        Reads-cons (Exponent true) SignedDigits c rest k last left
          (λ w (sign, digits, eq, s, ds).
            subst (λ (v : Text). Exponent true (c ∷ v)) (sym eq) (power c sign digits e s ds))
          (Reads-append SignedDigits IsSign (AllOf is_digit) rest (advance c k) signed unsigned last
            left (λ v w s ds. (v, w, refl, s, ds)) (skip_sign-Reads rest (advance c k))
            (advance_while-Reads is_digit unsigned signed)))
      (λ e. Reads-nothing (Exponent false) (c ∷ rest) k plain)
