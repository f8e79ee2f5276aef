-- ===== src/Parser/Run.antt =====
-- Parser::parse of parser.cpp.
use synthgen_core.Prelude.{
  ℕ, zero, suc, Text, ◌||◌, Option, none, some, List, [], ◌∷◌, length, if◌then◌else◌,
}
use synthgen_core.Common.Result
use synthgen_core.Common.Result.{ErrorCode, Error, Result, ok, err}
use synthgen_core.Common.Double.{Double}
use synthgen_core.Lexer.{Token, tokenize, k_define, k_load, k_generate}
use synthgen_core.Parser.State.{
  Statement, Parser, Answer, returned, failed, thrown, stuck, same_token_type, is_at_end, end_token,
}
use synthgen_core.Parser.Statements.{parse_statement}

pub data ParseErrorCode : Type 0 where
  syntax_error undefined_type duplicate_column_name invalid_range : ParseErrorCode
  unsupported_in_v1 type_mismatch invalid_enum invalid_column_name : ParseErrorCode
  invalid_argument : ParseErrorCode

pub record ParseError : Type 0 where
  pub code : ParseErrorCode
  pub message : Text
  pub line : ℕ
  pub column : ℕ

-- A result of the parser: `program.statements` and `errors`.
pub record ParseResult (F : Type 0) : Type 0 where
  pub statements : List (Statement F)
  pub errors : List ParseError

unfoldable pub parse_error_code : ErrorCode → ParseErrorCode
parse_error_code Result.unsupported_in_v1 = unsupported_in_v1
parse_error_code Result.undefined_type = undefined_type
parse_error_code Result.duplicate_column_name = duplicate_column_name
parse_error_code _ = syntax_error

abbrev pub report : Error → ParseError
report e = record { code = parse_error_code e.code; message = e.message; line = 0; column = 0 }

-- The tokens from the next one on that may begin a statement.
unfoldable pub skip_to_statement : Token → List Token → Token × List Token
skip_to_statement previous [] = (previous, [])
skip_to_statement previous (t ∷ ts) =
    let rest = skip_to_statement t ts in
    if is_at_end (t ∷ ts)
      || (same_token_type t.type_of k_define
          || (same_token_type t.type_of k_load || same_token_type t.type_of k_generate))
    then (previous, t ∷ ts)
    else rest

unfoldable pub skip_statement : Parser → Parser
unfolding skip_to_statement
skip_statement p =
    let (previous, tokens) = skip_to_statement p.previous p.tokens in
    record { previous = previous; tokens = tokens; defined_types = p.defined_types }

abbrev pub Outcome : Type 0 → Type 0
Outcome F = Answer (ParseResult F) × Parser

module _ {F : Type 0} where
  abbrev pub add_statement : Statement F → Outcome F → Outcome F
  add_statement s (returned r, p) = (returned (record r { statements = s ∷ r.statements }), p)
  add_statement s (failed e, p) = (failed e, p)
  add_statement s (thrown, p) = (thrown, p)
  add_statement s (stuck, p) = (stuck, p)

  abbrev pub add_error : Error → Outcome F → Outcome F
  add_error e (returned r, p) = (returned (record r { errors = report e ∷ r.errors }), p)
  add_error e (failed f, p) = (failed f, p)
  add_error e (thrown, p) = (thrown, p)
  add_error e (stuck, p) = (stuck, p)

  -- The loop after a call of parse_statement; `next` is the loop.
  abbrev pub after_statement : (Parser → Outcome F) → Answer (Statement F) × Parser → Outcome F
  after_statement next (returned s, p) = add_statement s (next p)
  after_statement next (failed e, p) = add_error e (next (skip_statement p))
  after_statement next (thrown, p) = (thrown, p)
  after_statement next (stuck, p) = (stuck, p)

abbrev pub start : List Token → Parser
start tokens = record { previous = end_token; tokens = tokens; defined_types = [] }

module _ {F : Type 0} ⦃d : Double F⦄ where
  -- The first fuel is for the loops inside a statement.
  unfoldable pub parse_loop : ℕ → ℕ → Parser → Outcome F
  unfolding parse_statement skip_statement is_at_end
  parse_loop g zero p = (stuck, p)
  parse_loop g (suc f) p =
      if is_at_end p.tokens
      then (returned (record { statements = []; errors = [] }), p)
      else after_statement (parse_loop g f) (parse_statement g p)

  -- What `parse` does with what the lexer gives; a round for each token is enough.
  unfoldable pub parse_tokens : Result (List Token) → Outcome F
  unfolding parse_loop
  parse_tokens (err e) = (
    returned (record {
      statements = [];
      errors = record { code = syntax_error; message = e.message; line = 0; column = 0 } ∷ [];
    }),
    start [],
  )
  parse_tokens (ok tokens) = parse_loop (suc (length tokens)) (suc (length tokens)) (start tokens)

  -- The answer, and the parser's fields after the call.
  unfoldable pub parse : Text → Option (Outcome F)
  unfolding parse_tokens
  parse source = elim (tokenize source) [ none ↦ none | some r ↦ some (parse_tokens r) ]
