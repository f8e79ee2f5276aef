-- ===== src/Parser/Examples.antt =====
-- The parser on a source with a type, a broken statement and a table.
use synthgen_core.Prelude.{ℕ, Text, text, false, ◌≡◌, refl, some, [], ◌∷◌, All}
use synthgen_core.Prelude.Decimal.{number}
use synthgen_core.Common.Types.{float}
use synthgen_core.Common.Double.{Double}
use synthgen_core.Parser.State.{define_type, Parser, returned}
use synthgen_core.Parser.Run.{ParseResult, Outcome, undefined_type}
use synthgen_core.Parser.State.{
  continue_with, ◌>>=◌, pure, reject, reject_if, peek, is_at_end, check, at_end, checks, advance_in,
  advance, match, unexpected, expect, require, skip_semicolon, define,
}
use synthgen_core.Parser.Columns.{
  more_before, strip_quotes, modifiers, enum_values, enum_type, scaled, signed_number, parse_range,
  ranged_type, column_type, parse_column_def, parse_columns, parse_define_type,
}
use synthgen_core.Parser.Statements.{
  require_defined, parse_load_data, reject_during_when, reject_unsupported, number_after,
  between_item, order_item, operator_item, parse_constraint_item, constraint_items,
  parse_define_constraint, stoll, limit_value, parse_generate_table, reject_start, parse_definition,
  parse_statement,
}
use synthgen_core.Parser.Run.{
  parse_error_code, skip_to_statement, skip_statement, parse_loop, parse_tokens, parse,
}
use synthgen_core.Lexer
use synthgen_core.Lexer.{l_ident, k_generate, t_eof}
use synthgen_core.Lexer.{
  type_index, keyword, begin, skip, advance_while, match_char, make_token, error_token,
  close_string, scan_string, scan_fraction, skip_sign, scan_exponent, scan_number, word_type,
  scan_identifier_or_keyword, symbol, scan_order, scan_symbol, scan_from, scan_rest, scan_token,
  tokenize_from, tokenize,
}
use synthgen_core.Prelude.{text_eq, text_lt, text_mem}
use synthgen_core.Prelude.Decimal.{digits, to_string}
use synthgen_core.Parser.Progress.{StatementHolds}
use synthgen_core.Parser.Parsed.{
  Finished, Builds, Skips, parse-Finished, parse-StatementHolds, parse-Builds, skip_statement-Skips,
}

-- Whole numbers in place of doubles, none of which is NaN.
abbrev reading : Double ℕ
reading = record {
  lt = λ a b. false;
  ge = λ a b. false;
  is_nan = λ a. false;
  zero_value = 0;
  negate = λ a. a;
  stod = λ s. some (number 0 s);
}

abbrev source : Text
source = text "DEFINE TYPE A { x : FLOAT [1, 2] } LOAD DATA INTO B"

abbrev result : ParseResult ℕ
result = record {
  statements =
      define_type (record {
        type_name = text "A";
        columns =
            record {
              name = text "x";
              type = float;
              not_null = false;
              is_order = false;
              range_min = some 1;
              range_max = some 2;
              enum_values = [];
            }
            ∷ [];
      })
      ∷ [];
  errors =
      record { code = undefined_type; message = text "Undefined type: B"; line = 0; column = 0 }
      ∷ [];
}

abbrev after : Parser
after = record {
  previous = record { type_of = l_ident; lexeme = text "B"; line = 1; column = 51 };
  tokens = record { type_of = t_eof; lexeme = []; line = 1; column = 52 } ∷ [];
  defined_types = text "A" ∷ [];
}

parsed : parse ⦃d = reading⦄ source ≡ some (returned result, after)
unfolding continue_with ◌>>=◌ pure reject reject_if peek is_at_end check at_end checks advance_in
    advance match unexpected expect require skip_semicolon define more_before strip_quotes modifiers
    enum_values enum_type scaled signed_number parse_range ranged_type column_type parse_column_def
    parse_columns parse_define_type require_defined parse_load_data reject_during_when
    reject_unsupported number_after between_item order_item operator_item parse_constraint_item
    constraint_items parse_define_constraint stoll limit_value parse_generate_table reject_start
    parse_definition parse_statement parse_error_code skip_to_statement skip_statement parse_loop
    parse_tokens parse type_index keyword Lexer.advance begin skip advance_while match_char
    make_token error_token close_string scan_string scan_fraction skip_sign scan_exponent
    scan_number word_type scan_identifier_or_keyword symbol scan_order scan_symbol scan_from
    scan_rest scan_token tokenize_from tokenize digits to_string number text text_eq text_lt
    text_mem
parsed = refl

parse-Finished_example :
    (out : Outcome ℕ) × (parse ⦃d = reading⦄ source ≡ some out) × Finished ⦃d = reading⦄ out
parse-Finished_example = parse-Finished ⦃d = reading⦄ source

parse-StatementHolds_example : All (λ s. StatementHolds ⦃d = reading⦄ s after) result.statements
parse-StatementHolds_example = parse-StatementHolds ⦃d = reading⦄ source result after parsed

parse-Builds_example : All (Builds ⦃d = reading⦄ (λ s x i e. refl) (λ x e. refl)) result.statements
parse-Builds_example =
    parse-Builds ⦃d = reading⦄ (λ s x i e. refl) (λ x e. refl) source result after parsed

-- A parser that stands inside a statement, before another one.
abbrev inside : Parser
inside = record {
  previous = record { type_of = l_ident; lexeme = text "B"; line = 1; column = 51 };
  tokens =
      record { type_of = l_ident; lexeme = text "C"; line = 1; column = 53 }
      ∷ record { type_of = k_generate; lexeme = text "GENERATE"; line = 1; column = 55 }
      ∷ record { type_of = t_eof; lexeme = []; line = 1; column = 63 }
      ∷ [];
  defined_types = text "A" ∷ [];
}

skip_statement-Skips_example :
    Skips inside.tokens (skip_statement inside).tokens
    × ((skip_statement inside).defined_types ≡ inside.defined_types)
skip_statement-Skips_example = skip_statement-Skips inside
