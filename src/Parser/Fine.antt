-- ===== src/Parser/Fine.antt =====
-- Parse functions that never run out of fuel and never leave the tokens of the lexer, with what
-- they return; and the rules by which one is put together from others.
use synthgen_core.Prelude.{
  ℕ, ◌≤◌, ◌<◌, Text, text_mem, Bool, true, false, ◌≡◌, List, [], ◌∷◌, length, if◌then◌else◌, arith,
  if_rule,
}
use synthgen_core.Common.Result.{ErrorCode}
use synthgen_core.Lexer.{TokenType, Token, t_eof}
use synthgen_core.Lexer.Shapes.{IsToken}
use synthgen_core.Parser.Columns.{is_number}
use synthgen_core.Parser.State.{
  Parser, Answer, returned, failed, thrown, stuck, Parse, ◌>>=◌, continue_with, pure, reject,
  reject_if, at_end, checks,
}

-- The tokens that the lexer gives, or the last ones of them.
pub data Stream : List Token → Type 0 where
  last : (t : Token) → t.type_of ≡ t_eof → Stream (t ∷ [])
  more : (t : Token) (ts : List Token) → IsToken t.type_of t.lexeme → Stream ts → Stream (t ∷ ts)

-- A token that is an integer or a float is one that the lexer gives for its lexeme.
abbrev pub Seen : Token → Type 0
Seen t = is_number t ≡ true → IsToken t.type_of t.lexeme

-- At most `n` tokens are left, the one before them was seen, and the types in the list are defined.
pub record Within (n : ℕ) (types : List Text) (p : Parser) : Type 0 where
  pub stream : Stream p.tokens
  pub few : length p.tokens ≤ n
  pub before : Seen p.previous
  pub known : (x : Text) → text_mem x types ≡ true → text_mem x p.defined_types ≡ true

module _ {A : Type 0} where
  abbrev pub Answered : (A → Parser → Type 0) → Answer A → Parser → Type 0
  Answered Q (returned a) p = Q a p
  Answered Q (failed e) p = Unit {0}
  Answered Q thrown p = Unit {0}
  Answered Q stuck p = ⊥

  pub record Sat (n : ℕ) (types : List Text) (Q : A → Parser → Type 0) (out : Answer A × Parser)
      : Type 0 where
    pub within : Within n types out.1
    pub answered : Answered Q out.0 out.1

  pub record Fine (n : ℕ) (types : List Text) (Q : A → Parser → Type 0) (m : Parse A) : Type 0 where
    pub at : (p : Parser) → Within n types p → Sat n types Q (m p)

  -- A property of the value alone.
  unfoldable pub Value : (A → Type 0) → A → Parser → Type 0
  Value Q a p = Q a

  abbrev pub Known : (A → Type 0) → (A → Text) → A → Parser → Type 0
  Known Q name_of a p = Q a × (text_mem (name_of a) p.defined_types ≡ true)

  -- Fewer than `n` tokens are left.
  pub record Moves (n : ℕ) (types : List Text) (Q : A → Parser → Type 0) (out : Answer A × Parser)
      : Type 0 where
    pub fewer : ℕ
    pub less : fewer < n
    pub sat : Sat fewer types Q out

abbrev pub Any {ℓ} : {A : Type ℓ} → A → Type 0
Any a = Unit {0}

Within-weaken :
    (n k : ℕ) (types more_types : List Text) (p : Parser)
    → k ≤ n
    → ((x : Text) → text_mem x types ≡ true → text_mem x more_types ≡ true)
    → Within k more_types p
    → Within n types p
Within-weaken n k types more_types p h sub w = record {
  stream = w.stream;
  few = omega (arith, w.few);
  before = w.before;
  known = λ x e. w.known x (sub x e);
}

module _ {A : Type 0} {Q : A → Parser → Type 0} where
  pub Sat-weaken :
      (n k : ℕ) (types more_types : List Text) (out : Answer A × Parser)
      → k ≤ n
      → ((x : Text) → text_mem x types ≡ true → text_mem x more_types ≡ true)
      → Sat k more_types Q out
      → Sat n types Q out
  Sat-weaken n k types more_types out h sub s = record {
    within = Within-weaken n k types more_types out.1 h sub s.within;
    answered = s.answered;
  }

module _ {n : ℕ} {types : List Text} where
  continue_with-Sat :
      {A B : Type 0} {Q : A → Parser → Type 0} {R : B → Parser → Type 0} {f : A → Parse B}
      → ((a : A) (q : Parser) → Within n types q → Q a q → Sat n types R (f a q))
      → (out : Answer A × Parser) → Sat n types Q out
      → Sat n types R (continue_with f out)
  unfolding continue_with
  continue_with-Sat h (returned a, q) s = h a q s.within s.answered
  continue_with-Sat h (failed e, q) s = record { within = s.within; answered = tt }
  continue_with-Sat h (thrown, q) s = record { within = s.within; answered = tt }
  continue_with-Sat h (stuck, q) s = absurd s.answered

  map-Sat :
      {A B : Type 0} {Q : A → Parser → Type 0} {R : B → Parser → Type 0} (g : A → B)
      → ((a : A) (p : Parser) → Q a p → R (g a) p)
      → (out : Answer A × Parser) → Sat n types Q out
      → Sat n types R (continue_with (λ a. pure (g a)) out)
  unfolding pure
  map-Sat {A} {B} {Q} {R} g h out s =
      continue_with-Sat {Q = Q} {R = R} {f = λ a. λ q. (returned (g a), q)}
        (λ a q v e. record { within = v; answered = h a q e }) out s

  -- A step of which the value is known to have a property, and what follows.
  pub bind :
      {A B : Type 0} {Q : A → Type 0} {R : B → Parser → Type 0} {m : Parse A} {f : A → Parse B}
      → Fine n types (Value Q) m
      → ((a : A) → Q a → Fine n types R (f a))
      → Fine n types R (m >>= f)
  unfolding ◌>>=◌ Value
  bind {A} {B} {Q} {R} {m} {f} fine next = record {
    at = λ p w. continue_with-Sat {Q = Value Q} (λ a q v e. (next a e).at q v) (m p) (fine.at p w);
  }

  pub pure-Fine : {A : Type 0} (Q : A → Type 0) (a : A) → Q a → Fine n types (Value Q) (pure a)
  unfolding pure Value
  pure-Fine Q a h = record { at = λ p w. record { within = w; answered = h } }

  -- A value that goes with the name of a type, which is defined by then.
  pub pure-Known :
      {A : Type 0} (Q : A → Type 0) (name_of : A → Text) (a : A)
      → Q a
      → text_mem (name_of a) types ≡ true
      → Fine n types (Known Q name_of) (pure a)
  unfolding pure
  pure-Known Q name_of a h e = record {
    at = λ p w. record { within = w; answered = (h, w.known (name_of a) e) };
  }

  -- A step of which the value is put into another one.
  pub map-Fine :
      {A B : Type 0} {Q : A → Parser → Type 0} {R : B → Parser → Type 0} {m : Parse A} (g : A → B)
      → Fine n types Q m
      → ((a : A) (p : Parser) → Q a p → R (g a) p)
      → Fine n types R (m >>= λ a. pure (g a))
  unfolding ◌>>=◌ pure
  map-Fine {A} {B} {Q} {R} {m} g fine h = record { at = λ p w. map-Sat g h (m p) (fine.at p w) }

  pub reject-Fine :
      {A : Type 0} {R : A → Parser → Type 0} (code : ErrorCode) (message : Text)
      → Fine n types R (reject code message)
  unfolding reject
  reject-Fine code message = record { at = λ p w. record { within = w; answered = tt } }

  pub if-Fine :
      {A : Type 0} {R : A → Parser → Type 0} {x y : Parse A} (b : Bool)
      → (b ≡ true → Fine n types R x)
      → (b ≡ false → Fine n types R y)
      → Fine n types R (if b then x else y)
  if-Fine {A} {R} b f g = if_rule (Fine n types R) b f g

  pub reject_if-Fine :
      (b : Bool) (code : ErrorCode) (message : Text)
      → Fine n types (Value (λ u. b ≡ false)) (reject_if b code message)
  unfolding reject_if
  reject_if-Fine b code message =
      if-Fine b (λ e. reject-Fine code message) (λ e. pure-Fine (λ u. b ≡ false) tt e)

  pub at_end-Fine : Fine n types (Value Any) at_end
  unfolding at_end Value
  at_end-Fine = record { at = λ p w. record { within = w; answered = tt } }

  pub checks-Fine : (wanted : TokenType) → Fine n types (Value Any) (checks wanted)
  unfolding checks Value
  checks-Fine wanted = record { at = λ p w. record { within = w; answered = tt } }

  pub thrown-Fine : {A : Type 0} {R : A → Parser → Type 0} → Fine n types R (λ p. (thrown, p))
  thrown-Fine = record { at = λ p w. record { within = w; answered = tt } }

  -- Fuel for at least the tokens that are left is not zero.
  pub stuck-Fine : {A : Type 0} {R : A → Parser → Type 0} → n ≤ 0 → Fine n types R (λ p. (stuck, p))
  stuck-Fine h = record {
    at = λ p w. absurd (nonempty p.tokens w.stream (omega (arith, h, w.few)));
  }
    where
      nonempty : (ts : List Token) → Stream ts → length ts ≤ 0 → ⊥
      nonempty us (last t e) h = omega arith
      nonempty us (more t ts i s) h = omega arith

pub map-Moves :
    {n : ℕ} {types : List Text} {A B : Type 0} {Q : A → Parser → Type 0} {R : B → Parser → Type 0}
    (g : A → B) (m : Parse A) (p : Parser)
    → ((a : A) (q : Parser) → Q a q → R (g a) q)
    → Moves n types Q (m p)
    → Moves n types R ((m >>= λ a. pure (g a)) p)
unfolding ◌>>=◌
map-Moves g m p h moves = record {
  fewer = moves.fewer;
  less = moves.less;
  sat = map-Sat g h (m p) moves.sat;
}
