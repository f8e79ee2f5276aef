-- ===== src/Parser/Columns.antt =====
-- parse_column_def and parse_define_type of parser.cpp. The fuel of a loop is at least the number of
-- the tokens that are left.
use synthgen_core.Prelude.{
  ℕ, zero, suc, ◌-◌, Text, text, text_mem, Bool, true, false, not, ◌&&◌, ◌||◌, Option, none, some,
  List, [], ◌∷◌, ◌++◌, length, take, drop, if◌then◌else◌,
}
use synthgen_core.Common.Result.{
  syntax_error, invalid_range, invalid_enum, invalid_schema, duplicate_column_name,
}
use synthgen_core.Common.Types.{DataType, ColumnDef, float, int, datetime, string, enum}
use synthgen_core.Common.Double.{Double}
use synthgen_core.Schema.{DefineTypeStmt, is_empty}
use synthgen_core.Lexer.{
  TokenType, Token, k_float, k_int, k_datetime, k_string, k_enum, k_not, k_null, k_order, k_type,
  l_float, l_int, l_string, l_ident, s_lbrace, s_rbrace, s_lparen, s_rparen, s_lbracket, s_rbracket,
  s_comma, s_colon, s_minus,
}
use synthgen_core.Parser.State.{
  Parse, thrown, stuck, ◌>>=◌, ◌>>◌, pure, reject, reject_if, same_token_type, at_end, checks,
  advance, match, expect, require, skip_semicolon, define,
}

-- !is_at_end() && !check(close), the condition of the do-while loops
unfoldable pub more_before : TokenType → Parse Bool
unfolding ◌>>=◌ at_end checks pure
more_before close = do ended ← at_end; closed ← checks close; pure (not ended && not closed)

-- lexeme.substr(1, lexeme.size() - 2)
unfoldable pub strip_quotes : Text → Text
strip_quotes s = take (length s - 2) (drop 1 s)

abbrev pub is_number : Token → Bool
is_number t = same_token_type t.type_of l_float || same_token_type t.type_of l_int

-- `not_null` and `is_order`
abbrev pub Modifiers : Type 0
Modifiers = Bool × Bool

unfoldable pub modifiers : ℕ → Modifiers → Parse Modifiers
unfolding ◌>>=◌ match expect pure
modifiers zero m = λ p. (stuck, p)
modifiers (suc f) (not_null, is_order) = do
  null_next ← match k_not
  if null_next then (do expect k_null; modifiers f (true, is_order)) else (do
    order_next ← match k_order
    if order_next then modifiers f (not_null, true) else pure (not_null, is_order))

-- The do-while loop over the values of an ENUM.
unfoldable pub enum_values : ℕ → Parse (List Text)
unfolding ◌>>=◌ require match more_before pure strip_quotes
enum_values zero = λ p. (stuck, p)
enum_values (suc f) = do
  val ← require l_string (text "Expected string value in ENUM")
  comma ← match s_comma
  more ← more_before s_rparen
  if comma && more
      then (do rest ← enum_values f; pure (strip_quotes val.lexeme ∷ rest))
      else pure (strip_quotes val.lexeme ∷ [])

unfoldable pub enum_type : ℕ → Parse (List Text)
unfolding ◌>>=◌ expect enum_values reject_if pure
enum_type f = do
  expect s_lparen
  values ← enum_values f
  expect s_rparen
  reject_if (is_empty values) invalid_enum (text "ENUM must have at least one value")
  pure values

-- A column's type, its range and its values.
pub record ColumnType (F : Type 0) : Type 0 where
  pub type : DataType
  pub range_min : Option F
  pub range_max : Option F
  pub enum_values : List Text

abbrev pub plain_type : {F : Type 0} → DataType → ColumnType F
plain_type t = record { type = t; range_min = none; range_max = none; enum_values = [] }

module _ {F : Type 0} ⦃d : Double F⦄ where
  -- std::stod(tok.lexeme) * (neg ? -1 : 1)
  unfoldable pub scaled : Bool → Text → Parse F
  unfolding pure
  scaled neg lexeme = elim (d.stod lexeme) [
    | none ↦ λ p. (thrown, p)
    | some x ↦ pure (if neg then d.negate x else x)
  ]

  -- A number with a minus before it or none.
  unfoldable pub signed_number : Text → Parse F
  unfolding ◌>>=◌ match advance reject_if scaled
  signed_number message = do
    neg ← match s_minus
    tok ← advance
    reject_if (not (is_number tok)) syntax_error message
    scaled neg tok.lexeme

  unfoldable pub parse_range : Text → Text → Parse (Option F × Option F)
  unfolding ◌>>=◌ match signed_number expect reject_if pure
  parse_range min_message max_message = do
    bracket ← match s_lbracket
    if bracket
        then (do
          lo ← signed_number min_message
          expect s_comma
          hi ← signed_number max_message
          expect s_rbracket
          reject_if (d.ge lo hi) invalid_range (text "range_min must be less than range_max")
          pure (some lo, some hi))
        else pure (none, none)

  unfoldable pub ranged_type : DataType → Text → Text → Parse (ColumnType F)
  unfolding ◌>>=◌ parse_range pure
  ranged_type type min_message max_message = do
    range ← parse_range min_message max_message
    pure (record { type = type; range_min = range.0; range_max = range.1; enum_values = [] })

  -- The switch on the token of the type.
  unfoldable pub column_type : ℕ → TokenType → Parse (ColumnType F)
  unfolding ◌>>=◌ ranged_type enum_type pure reject
  column_type f t =
      if same_token_type t k_float
      then ranged_type float (text "Expected number for range min")
          (text "Expected number for range max")
      else if same_token_type t k_int
      then ranged_type int (text "Expected integer for range min")
          (text "Expected integer for range max")
      else if same_token_type t k_datetime
      then pure (plain_type datetime)
      else if same_token_type t k_string
      then pure (plain_type string)
      else if same_token_type t k_enum
      then (do
        values ← enum_type f
        pure (record { type = enum; range_min = none; range_max = none; enum_values = values }))
      else reject syntax_error (text "Expected type (FLOAT, INT, DATETIME, STRING, ENUM)")

  unfoldable pub parse_column_def : ℕ → Parse (ColumnDef F)
  unfolding ◌>>=◌ require at_end reject_if advance column_type modifiers pure
  parse_column_def f = do
    name ← require l_ident (text "Expected column name")
    require s_colon (text "Expected ':' after column name")
    ended ← at_end
    reject_if ended syntax_error (text "Expected type after ':'")
    type_token ← advance
    t ← column_type f type_token.type_of
    m ← modifiers f (false, false)
    pure (record {
      name = name.lexeme;
      type = t.type;
      not_null = m.0;
      is_order = m.1;
      range_min = t.range_min;
      range_max = t.range_max;
      enum_values = t.enum_values;
    })

  -- The do-while loop over the columns; `seen` is `seen_columns`, and the first fuel is for the
  -- loops inside a column.
  unfoldable pub parse_columns : ℕ → ℕ → List Text → Parse (List (ColumnDef F))
  unfolding ◌>>=◌ parse_column_def reject_if match more_before pure
  parse_columns g zero seen = λ p. (stuck, p)
  parse_columns g (suc f) seen = do
    col ← parse_column_def g
    reject_if (text_mem col.name seen) duplicate_column_name
        (text "Duplicate column name: " ++ col.name)
    comma ← match s_comma
    more ← more_before s_rbrace
    if comma && more
        then (do rest ← parse_columns g f (col.name ∷ seen); pure (col ∷ rest))
        else pure (col ∷ [])

  unfoldable pub parse_define_type : ℕ → Parse (DefineTypeStmt F)
  unfolding ◌>>=◌ expect require at_end reject_if define parse_columns skip_semicolon pure
  parse_define_type f = do
    expect k_type
    ended ← at_end
    reject_if ended syntax_error (text "Expected type name")
    name ← require l_ident (text "Expected type name identifier")
    define name.lexeme
    require s_lbrace (text "Expected '{' after type name")
    ended ← at_end
    reject_if ended syntax_error (text "Expected column definitions")
    columns ← parse_columns f f []
    require s_rbrace (text "Expected '}' to close type definition")
    skip_semicolon
    reject_if (is_empty columns) invalid_schema (text "Type must have at least one column")
    pure (record { type_name = name.lexeme; columns = columns })
