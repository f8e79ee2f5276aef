-- ===== src/Parser/Progress.antt =====
-- Every call of parse_statement by the loop reads a token, or leaves one that the loop skips.
use synthgen_core.Prelude.{
  ℕ, ◌≤◌, Text, text, Bool, true, false, ◌≡◌, refl, sym, subst, List, if◌then◌else◌, arith, ◌⊎◌,
  inl, inr, Bool-cases,
}
use synthgen_core.Common.Result.{Error, syntax_error}
use synthgen_core.Common.Double.{Double}
use synthgen_core.Lexer.{Token, k_define, k_type, k_constraint, k_load, k_generate}
use synthgen_core.Parser.State.{
  Statement, define_type, load_data, define_constraint, generate_table, Parser, Parse, Answer,
  failed, ◌>>=◌, continue_with, pure, reject, check, checks,
}
use synthgen_core.Parser.Statements.{
  parse_load_data, parse_generate_table, parse_definition, parse_statement, reject_start,
}
use synthgen_core.Parser.Fine.{
  Within, Moves, Fine, bind, reject-Fine, if-Fine, checks-Fine, Known, map-Fine, map-Moves,
}
use synthgen_core.Parser.Steps.{match-Moves}
use synthgen_core.Parser.Next.{match-false}
use synthgen_core.Parser.Typed.{TypeDefined, parse_define_type-Fine}
use synthgen_core.Parser.Checked.{
  LoadRead, parse_define_constraint-Fine, parse_load_data-Moves, parse_generate_table-Moves,
}
use synthgen_core.Parser.Items.{TableRead, ConstraintRead}

-- The first token may not begin a statement, and it is not the end.
abbrev pub NoStart : List Token → Type 0
NoStart tokens =
    (check k_define tokens ≡ false)
    × (check k_load tokens ≡ false)
    × (check k_generate tokens ≡ false)

module _ {F : Type 0} ⦃d : Double F⦄ where
  -- The type that a statement defines or names.
  abbrev pub type_of_statement : Statement F → Text
  type_of_statement (define_type stmt) = stmt.type_name
  type_of_statement (load_data stmt) = stmt.type_name
  type_of_statement (define_constraint stmt) = stmt.type_name
  type_of_statement (generate_table stmt) = stmt.type_name

  abbrev pub StatementRead : Statement F → Type 0
  StatementRead (define_type stmt) = TypeDefined stmt
  StatementRead (load_data stmt) = LoadRead stmt
  StatementRead (define_constraint stmt) = ConstraintRead stmt
  StatementRead (generate_table stmt) = TableRead stmt

  -- A statement that was read, and its type is defined.
  abbrev pub StatementHolds : Statement F → Parser → Type 0
  StatementHolds = Known StatementRead type_of_statement

  parse_definition-Fine :
      {types : List Text} (f n : ℕ) → n ≤ f → Fine n types StatementHolds (parse_definition f)
  unfolding parse_definition
  parse_definition-Fine f n h = bind (checks-Fine k_type) λ type_next _.
      bind (checks-Fine k_constraint) λ constraint_next _.
        if-Fine type_next (λ _. map-Fine define_type (parse_define_type-Fine f n h) (λ _ _ e. e))
          λ _.
            if-Fine constraint_next
              (λ _. map-Fine define_constraint (parse_define_constraint-Fine f n h) (λ _ _ e. e))
              λ _. reject-Fine syntax_error (text "Expected TYPE or CONSTRAINT after DEFINE")

  -- A call that read a token, or failed on one that it left.
  abbrev pub Steps : ℕ → List Text → Parser → Answer (Statement F) × Parser → Type 0
  Steps n types p out =
      Moves n types StatementHolds out ⊎ ((e : Error) × (out ≡ (failed e, p)) × NoStart p.tokens)

  -- What is left of the call where the first token is not DEFINE.
  abbrev no_definition : Bool → Bool → Parse (Statement F)
  no_definition load_next generate_next =
      if load_next
      then (parse_load_data >>= λ stmt. pure (load_data stmt))
      else if generate_next
      then (parse_generate_table >>= λ stmt. pure (generate_table stmt))
      else reject_start

  abbrev other_statement : Parser → Answer (Statement F) × Parser
  other_statement p = no_definition (check k_load p.tokens) (check k_generate p.tokens) p

  parse_statement-other :
      (f : ℕ) (p : Parser)
      → check k_define p.tokens ≡ false
      → parse_statement f p ≡ other_statement p
  unfolding parse_statement ◌>>=◌ checks
  parse_statement-other f p e = rw (match-false k_define p e, continue_with) refl

  parse_statement-define :
      (f n : ℕ) (types : List Text) (p : Parser)
      → n ≤ f
      → Within n types p
      → check k_define p.tokens ≡ true
      → Moves n types StatementHolds (parse_statement f p)
  unfolding parse_statement
  parse_statement-define f n types p h w e = match-Moves k_define p w e λ define_next k here less.
      bind (checks-Fine k_load) λ load_next _. bind (checks-Fine k_generate) λ generate_next _.
        if-Fine {y = no_definition load_next generate_next} define_next
          (λ _. parse_definition-Fine f k (omega (arith, h, less))) (λ no_define. absurd cc)

  other_statement-Steps :
      (n : ℕ) (types : List Text) (p : Parser)
      → Within n types p
      → check k_define p.tokens ≡ false
      → Steps n types p (other_statement p)
  unfolding reject_start reject
  other_statement-Steps n types p w no_define = elim (Bool-cases (check k_load p.tokens)) [
    | inl load ↦ inl (
        rw load
          (map-Moves load_data parse_load_data p (λ _ _ r. r) (parse_load_data-Moves p w load)))
    | inr no_load ↦ elim (Bool-cases (check k_generate p.tokens)) [
      | inl generate ↦ inl (
          rw (no_load, generate)
            (map-Moves generate_table parse_generate_table p (λ _ _ r. r)
              (parse_generate_table-Moves p w generate)))
      | inr no_generate ↦ inr (rw (no_load, no_generate) (_, refl, (no_define, refl, refl)))
    ]
  ]

  pub parse_statement-Steps :
      (f n : ℕ) (types : List Text) (p : Parser)
      → n ≤ f
      → Within n types p
      → Steps n types p (parse_statement f p)
  parse_statement-Steps f n types p h w = elim (Bool-cases (check k_define p.tokens)) [
    | inl e ↦ inl (parse_statement-define f n types p h w e)
    | inr e ↦
        subst (Steps n types p) (sym (parse_statement-other f p e))
          (other_statement-Steps n types p w e)
  ]
