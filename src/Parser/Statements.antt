-- ===== src/Parser/Statements.antt =====
-- parse_load_data, parse_define_constraint, parse_constraint_item, parse_generate_table,
-- parse_statement and parse of parser.cpp.
use synthgen_core.Prelude.{
  ℕ, zero, suc, ◌-◌, ◌^◌, Text, text, text_eq, text_mem, not, ◌&&◌, ◌||◌, Option, none, some, List,
  [], ◌∷◌, ◌++◌, ltb, leb, ◌==◌, if◌then◌else◌,
}
use synthgen_core.Prelude.Decimal.{number}
use synthgen_core.Prelude.Int.{ℤ, pos, negsuc, ltb_ℤ}
use synthgen_core.Common.Result.{syntax_error, undefined_type, unsupported_in_v1, invalid_argument}
use synthgen_core.Common.Double.{Double}
use synthgen_core.Common.Types.{ColumnDef}
use synthgen_core.Schema.{DefineTypeStmt, find_in}
use synthgen_core.Lexer.{
  k_define, k_type, k_constraint, k_load, k_data, k_into, k_from, k_on, k_generate, k_table, k_with,
  k_limit, k_between, k_and, k_during, k_when, k_avg, k_over, l_int, l_string, l_ident, s_lbrace,
  s_rbrace, s_comma, s_gt, s_lt, s_ge, s_le, s_minus,
}
use synthgen_core.Parser.State.{
  LoadDataStmt, ConstraintOperator, between, greater_than, less_than, greater_equal, less_equal,
  ConstraintItem, DefineConstraintStmt, GenerateTableStmt, Statement, define_type, load_data,
  define_constraint, generate_table, Parse, thrown, stuck, ◌>>=◌, ◌>>◌, pure, reject, reject_if,
  same_token_type, checks, peek, advance, match, expect, require, skip_semicolon,
}
use synthgen_core.Parser.Columns.{
  more_before, strip_quotes, is_number, scaled, signed_number, parse_define_type,
}

-- std::find in defined_types_, and the error where the type is not there
unfoldable pub require_defined : Text → Parse (Unit {0})
unfolding reject_if
require_defined name = λ p.
    reject_if (not (text_mem name p.defined_types)) undefined_type (text "Undefined type: " ++ name)
      p

unfoldable pub parse_load_data : Parse LoadDataStmt
unfolding ◌>>=◌ expect require require_defined skip_semicolon strip_quotes pure
parse_load_data = do
  expect k_load
  expect k_data
  expect k_into
  type_name ← require l_ident (text "Expected type name after INTO")
  require_defined type_name.lexeme
  expect k_from
  path ← require l_string (text "Expected file path string after FROM")
  skip_semicolon
  pure (record { type_name = type_name.lexeme; file_path = strip_quotes path.lexeme })

unfoldable pub reject_during_when : Parse (Unit {0})
unfolding ◌>>=◌ checks reject_if
reject_during_when = do
  during ← checks k_during
  reject_if during unsupported_in_v1
      (text "DURING constraints are not supported in v1. Supported from v2.")
  when ← checks k_when
  reject_if when unsupported_in_v1
      (text "WHEN constraints are not supported in v1. Supported from v2.")

unfoldable pub reject_unsupported : Parse (Unit {0})
unfolding ◌>>=◌ reject_during_when checks reject_if
reject_unsupported = do
  reject_during_when
  avg ← checks k_avg
  over ← checks k_over
  reject_if (avg || over) unsupported_in_v1
      (text "Aggregate constraints are not supported in v1. Supported from v2.")

module _ {F : Type 0} ⦃d : Double F⦄ where
  -- The value after an order, and the minus that the code looks for behind it.
  unfoldable pub number_after : Text → Parse F
  unfolding ◌>>=◌ advance match reject_if scaled
  number_after message = do
    tok ← advance
    neg ← match s_minus
    reject_if (not (is_number tok)) syntax_error message
    scaled neg tok.lexeme

  abbrev pub item_above : Text → ConstraintOperator → F → ConstraintItem F
  item_above name op value = record {
    column_name = name;
    op = op;
    value_min = value;
    value_max = d.zero_value;
  }

  abbrev pub item_below : Text → ConstraintOperator → F → ConstraintItem F
  item_below name op value = record {
    column_name = name;
    op = op;
    value_min = d.zero_value;
    value_max = value;
  }

  unfoldable pub between_item : Text → Parse (ConstraintItem F)
  unfolding ◌>>=◌ signed_number expect pure
  between_item name = do
    lo ← signed_number (text "Expected number after BETWEEN")
    expect k_and
    hi ← signed_number (text "Expected number after AND")
    pure (record { column_name = name; op = between; value_min = lo; value_max = hi })

  unfoldable pub order_item : (F → ConstraintItem F) → Text → Parse (ConstraintItem F)
  unfolding ◌>>=◌ number_after pure
  order_item item message = do value ← number_after message; pure (item value)

  -- The chain of tests for the operator.
  unfoldable pub operator_item : Text → Parse (ConstraintItem F)
  unfolding ◌>>=◌ match between_item order_item reject
  operator_item name = do
    is_between ← match k_between
    if is_between then between_item name else (do
      gt ← match s_gt
      if gt then order_item (item_above name greater_than) (text "Expected number after >") else (do
        lt ← match s_lt
        if lt then order_item (item_below name less_than) (text "Expected number after <") else (do
          ge ← match s_ge
          if ge
              then order_item (item_above name greater_equal) (text "Expected number after >=")
              else (do
                le ← match s_le
                if le
                    then order_item (item_below name less_equal) (text "Expected number after <=")
                    else reject syntax_error
                        (text "Expected constraint operator (BETWEEN, >, <, >=, <=)")))))

  unfoldable pub parse_constraint_item : Parse (ConstraintItem F)
  unfolding ◌>>=◌ require operator_item
  parse_constraint_item = do
    column ← require l_ident (text "Expected column name in constraint")
    operator_item column.lexeme

  -- The do-while loop over the items.
  unfoldable pub constraint_items : ℕ → Parse (List (ConstraintItem F))
  unfolding ◌>>=◌ reject_unsupported parse_constraint_item match reject_during_when more_before pure
  constraint_items zero = λ p. (stuck, p)
  constraint_items (suc f) = do
    reject_unsupported
    item ← parse_constraint_item
    comma ← match s_comma
    if comma
        then (do
          reject_during_when
          more ← more_before s_rbrace
          if more then (do rest ← constraint_items f; pure (item ∷ rest)) else pure (item ∷ []))
        else pure (item ∷ [])

  unfoldable pub parse_define_constraint : ℕ → Parse (DefineConstraintStmt F)
  unfolding ◌>>=◌ expect require require_defined constraint_items reject_unsupported skip_semicolon
      pure
  parse_define_constraint f = do
    expect k_constraint
    name ← require l_ident (text "Expected constraint name")
    expect k_on
    type_name ← require l_ident (text "Expected type name after ON")
    require_defined type_name.lexeme
    expect s_lbrace
    items ← constraint_items f
    reject_unsupported
    require s_rbrace (text "Expected '}' to close constraint definition")
    skip_semicolon
    pure (record { constraint_name = name.lexeme; type_name = type_name.lexeme; items = items })

-- std::stoll of a lexeme: digits with a minus before them or none
unfoldable pub stoll : Text → Option ℤ
stoll [] = none
stoll (c ∷ cs) =
    if c == 45
    then (let n = number 0 cs in
        if leb n (2 ^ 63) then some (if n == 0 then pos 0 else negsuc (n - 1)) else none)
    else (let n = number 0 (c ∷ cs) in if ltb n (2 ^ 63) then some (pos n) else none)

unfoldable pub limit_value : Text → Parse ℤ
unfolding stoll pure
limit_value lexeme = elim (stoll lexeme) [ none ↦ λ p. (thrown, p) | some n ↦ pure n ]

unfoldable pub parse_generate_table : Parse GenerateTableStmt
unfolding ◌>>=◌ expect require require_defined checks reject_if advance limit_value skip_semicolon
    pure
parse_generate_table = do
  expect k_generate
  expect k_table
  name ← require l_ident (text "Expected table name")
  expect k_from
  type_name ← require l_ident (text "Expected type name after FROM")
  require_defined type_name.lexeme
  expect k_with
  constraint_next ← checks k_constraint
  ident_next ← checks l_ident
  reject_if (not constraint_next && not ident_next) syntax_error
      (text "Expected CONSTRAINTS after WITH")
  advance
  constraint ← require l_ident (text "Expected constraint name")
  expect k_limit
  limit_token ← advance
  reject_if (not (same_token_type limit_token.type_of l_int)) syntax_error
      (text "Expected integer after LIMIT")
  limit ← limit_value limit_token.lexeme
  reject_if (ltb_ℤ limit (pos 0)) invalid_argument (text "LIMIT must be non-negative")
  skip_semicolon
  pure (record {
    table_name = name.lexeme;
    type_name = type_name.lexeme;
    constraint_name = constraint.lexeme;
    limit = limit;
  })

-- ast.h: the lookups in a type definition and in a constraint
module _ {F : Type 0} where
  unfoldable pub find_column_def : DefineTypeStmt F → Text → Option (ColumnDef F)
  find_column_def stmt name = find_in name stmt.columns

  unfoldable pub items_of : Text → List (ConstraintItem F) → List (ConstraintItem F)
  items_of col [] = []
  items_of col (item ∷ items) =
      let rest = items_of col items in if text_eq item.column_name col then item ∷ rest else rest

  unfoldable pub get_column_constraints : DefineConstraintStmt F → Text → List (ConstraintItem F)
  unfolding items_of
  get_column_constraints stmt col = items_of col stmt.items

-- The error where no statement begins; it names the token that stands there.
unfoldable pub reject_start : {F : Type 0} → Parse (Statement F)
unfolding peek
reject_start = λ p.
    reject syntax_error
      (text "Expected DEFINE, LOAD, or GENERATE, got '" ++ ((peek p.tokens).lexeme ++ text "'")) p

module _ {F : Type 0} ⦃d : Double F⦄ where
  unfoldable pub parse_definition : ℕ → Parse (Statement F)
  unfolding ◌>>=◌ checks parse_define_type parse_define_constraint reject pure
  parse_definition f = do
    type_next ← checks k_type
    constraint_next ← checks k_constraint
    if type_next
        then (do stmt ← parse_define_type f; pure (define_type stmt))
        else if constraint_next
        then (do stmt ← parse_define_constraint f; pure (define_constraint stmt))
        else reject syntax_error (text "Expected TYPE or CONSTRAINT after DEFINE")

  unfoldable pub parse_statement : ℕ → Parse (Statement F)
  unfolding ◌>>=◌ match parse_definition checks parse_load_data parse_generate_table reject_start
      pure
  parse_statement f = do
    define_next ← match k_define
    load_next ← checks k_load
    generate_next ← checks k_generate
    if define_next
        then parse_definition f
        else if load_next
        then (do stmt ← parse_load_data; pure (load_data stmt))
        else if generate_next
        then (do stmt ← parse_generate_table; pure (generate_table stmt))
        else reject_start
