-- ===== src/Lexer.antt =====
-- parser/token.h and lexer.cpp: the tokens of a source text.
mod Steps
pub mod Shapes
pub mod Plain
pub mod Places
pub mod Tokenize
mod Examples
use synthgen_core.Prelude.{
  ℕ, zero, suc, ◌+◌, ◌-◌, ◌<◌, ◌≤◌, Text, text, text_eq, Bool, true, false, not, ◌&&◌, ◌||◌, Option,
  none, some, List, [], ◌∷◌, ◌++◌, map, length, leb, ◌==◌, if◌then◌else◌,
}
use synthgen_core.Common.Result.{Result, ok, err, fail, syntax_error}

pub data TokenType : Type 0 where
  k_define : TokenType
  k_type : TokenType
  k_load : TokenType
  k_data : TokenType
  k_into : TokenType
  k_from : TokenType
  k_constraint : TokenType
  k_on : TokenType
  k_generate : TokenType
  k_table : TokenType
  k_with : TokenType
  k_limit : TokenType
  k_between : TokenType
  k_and : TokenType
  k_not : TokenType
  k_null : TokenType
  k_order : TokenType
  k_float : TokenType
  k_int : TokenType
  k_datetime : TokenType
  k_string : TokenType
  k_enum : TokenType
  k_during : TokenType
  k_when : TokenType
  k_then : TokenType
  k_avg : TokenType
  k_over : TokenType
  k_interval : TokenType
  k_rows : TokenType
  k_partition : TokenType
  k_by : TokenType
  k_session : TokenType
  k_gap : TokenType
  k_update : TokenType
  k_model : TokenType
  k_incorporate : TokenType
  k_where : TokenType
  k_as : TokenType
  k_of : TokenType
  k_version : TokenType
  k_include : TokenType
  k_mode : TokenType
  k_fallback : TokenType
  k_save : TokenType
  l_float : TokenType
  l_int : TokenType
  l_string : TokenType
  l_ident : TokenType
  s_lbrace : TokenType
  s_rbrace : TokenType
  s_lparen : TokenType
  s_rparen : TokenType
  s_lbracket : TokenType
  s_rbracket : TokenType
  s_comma : TokenType
  s_colon : TokenType
  s_semicolon : TokenType
  s_dot : TokenType
  s_eq : TokenType
  s_gt : TokenType
  s_lt : TokenType
  s_ge : TokenType
  s_le : TokenType
  s_minus : TokenType
  t_eof : TokenType
  t_error : TokenType

-- TokenType's place in the enumeration, to compare two of them
unfoldable pub type_index : TokenType → ℕ
type_index k_define = 0
type_index k_type = 1
type_index k_load = 2
type_index k_data = 3
type_index k_into = 4
type_index k_from = 5
type_index k_constraint = 6
type_index k_on = 7
type_index k_generate = 8
type_index k_table = 9
type_index k_with = 10
type_index k_limit = 11
type_index k_between = 12
type_index k_and = 13
type_index k_not = 14
type_index k_null = 15
type_index k_order = 16
type_index k_float = 17
type_index k_int = 18
type_index k_datetime = 19
type_index k_string = 20
type_index k_enum = 21
type_index k_during = 22
type_index k_when = 23
type_index k_then = 24
type_index k_avg = 25
type_index k_over = 26
type_index k_interval = 27
type_index k_rows = 28
type_index k_partition = 29
type_index k_by = 30
type_index k_session = 31
type_index k_gap = 32
type_index k_update = 33
type_index k_model = 34
type_index k_incorporate = 35
type_index k_where = 36
type_index k_as = 37
type_index k_of = 38
type_index k_version = 39
type_index k_include = 40
type_index k_mode = 41
type_index k_fallback = 42
type_index k_save = 43
type_index l_float = 44
type_index l_int = 45
type_index l_string = 46
type_index l_ident = 47
type_index s_lbrace = 48
type_index s_rbrace = 49
type_index s_lparen = 50
type_index s_rparen = 51
type_index s_lbracket = 52
type_index s_rbracket = 53
type_index s_comma = 54
type_index s_colon = 55
type_index s_semicolon = 56
type_index s_dot = 57
type_index s_eq = 58
type_index s_gt = 59
type_index s_lt = 60
type_index s_ge = 61
type_index s_le = 62
type_index s_minus = 63
type_index t_eof = 64
type_index t_error = 65

pub record Token : Type 0 where
  pub type_of : TokenType
  pub lexeme : Text
  pub line : ℕ
  pub column : ℕ

abbrev pub keyword_map : List (Text × TokenType)
keyword_map =
    (text "DEFINE", k_define)
    ∷ (text "TYPE", k_type)
    ∷ (text "LOAD", k_load)
    ∷ (text "DATA", k_data)
    ∷ (text "INTO", k_into)
    ∷ (text "FROM", k_from)
    ∷ (text "CONSTRAINT", k_constraint)
    ∷ (text "ON", k_on)
    ∷ (text "GENERATE", k_generate)
    ∷ (text "TABLE", k_table)
    ∷ (text "WITH", k_with)
    ∷ (text "LIMIT", k_limit)
    ∷ (text "BETWEEN", k_between)
    ∷ (text "AND", k_and)
    ∷ (text "NOT", k_not)
    ∷ (text "NULL", k_null)
    ∷ (text "ORDER", k_order)
    ∷ (text "FLOAT", k_float)
    ∷ (text "INT", k_int)
    ∷ (text "DATETIME", k_datetime)
    ∷ (text "STRING", k_string)
    ∷ (text "ENUM", k_enum)
    ∷ (text "DURING", k_during)
    ∷ (text "WHEN", k_when)
    ∷ (text "THEN", k_then)
    ∷ (text "AVG", k_avg)
    ∷ (text "OVER", k_over)
    ∷ (text "INTERVAL", k_interval)
    ∷ (text "ROWS", k_rows)
    ∷ (text "PARTITION", k_partition)
    ∷ (text "BY", k_by)
    ∷ (text "SESSION", k_session)
    ∷ (text "GAP", k_gap)
    ∷ (text "UPDATE", k_update)
    ∷ (text "MODEL", k_model)
    ∷ (text "INCORPORATE", k_incorporate)
    ∷ (text "WHERE", k_where)
    ∷ (text "AS", k_as)
    ∷ (text "OF", k_of)
    ∷ (text "VERSION", k_version)
    ∷ (text "INCLUDE", k_include)
    ∷ (text "MODE", k_mode)
    ∷ (text "FALLBACK", k_fallback)
    ∷ (text "SAVE", k_save)
    ∷ []

unfoldable pub keyword : Text → List (Text × TokenType) → Option TokenType
keyword s [] = none
keyword s ((name, t) ∷ names) =
    let rest = keyword s names in if text_eq name s then some t else rest

abbrev pub within : ℕ → ℕ → ℕ → Bool
within lo hi c = leb lo c && leb c hi

-- std::isdigit, std::isalpha, std::isalnum and std::toupper of the C locale
abbrev pub is_digit : ℕ → Bool
is_digit c = within 48 57 c

abbrev pub is_alpha : ℕ → Bool
is_alpha c = within 65 90 c || within 97 122 c

abbrev pub is_word : ℕ → Bool
is_word c = is_alpha c || (is_digit c || c == 95)

abbrev pub to_upper : Text → Text
to_upper = map (λ c. if within 97 122 c then c - 32 else c)

-- The lexer's fields but the source, of which the text from `current_` on is an argument of each
-- function; `lexeme` is the source from `start_` to `current_`.
pub record Lexer : Type 0 where
  pub lexeme : Text
  pub line : ℕ
  pub column : ℕ
  pub token_column : ℕ

unfoldable pub advance : ℕ → Lexer → Lexer
advance c k = record {
  lexeme = k.lexeme ++ c ∷ [];
  line = if c == 10 then suc k.line else k.line;
  column = if c == 10 then 1 else suc k.column;
  token_column = k.token_column;
}

-- start_ = current_ and token_column_ = column_
unfoldable pub begin : Lexer → Lexer
begin k = record k { lexeme = []; token_column = k.column }

-- The first character, or NUL at the end.
abbrev pub peek : Text → ℕ
peek [] = 0
peek (c ∷ rest) = c

abbrev pub peek_next : Text → ℕ
peek_next [] = 0
peek_next (c ∷ rest) = peek rest

abbrev pub is_at_end : Text → Bool
is_at_end [] = true
is_at_end (c ∷ rest) = false

abbrev pub is_blank : ℕ → Bool
is_blank c = c == 32 || (c == 9 || (c == 13 || c == 10))

-- The two loops of skip_whitespace_and_comments: the inner one runs where `in_comment` is true.
unfoldable pub skip : Bool → Text → Lexer → Lexer × Text
skip in_comment [] k = (k, [])
skip in_comment (c ∷ rest) k =
    let comment = if in_comment then not (c == 10) else (c == 45 && peek rest == 45) in
    let next = skip comment rest (advance c k) in
    if in_comment || (is_blank c || comment) then next else (k, c ∷ rest)

-- while (!is_at_end() && p(peek())) advance();
unfoldable pub advance_while : (ℕ → Bool) → Text → Lexer → Lexer × Text
advance_while p [] k = (k, [])
advance_while p (c ∷ rest) k =
    let next = advance_while p rest (advance c k) in if p c then next else (k, c ∷ rest)

-- match
unfoldable pub match_char : ℕ → Text → Lexer → Bool × Lexer × Text
match_char expected [] k = (false, k, [])
match_char expected (c ∷ rest) k =
    if c == expected then (true, advance c k, rest) else (false, k, c ∷ rest)

unfoldable pub make_token : TokenType → Lexer → Token
make_token t k = record { type_of = t; lexeme = k.lexeme; line = k.line; column = k.token_column }

unfoldable pub error_token : Text → Lexer → Token
error_token msg k = record {
  type_of = t_error;
  lexeme = msg;
  line = k.line;
  column = k.token_column;
}

-- A token, and the lexer and the source after it.
abbrev pub Scan : Type 0
Scan = Token × Lexer × Text

-- The end of scan_string, where the first quote or the end of the source is reached.
unfoldable pub close_string : Text → Lexer → Scan
close_string [] k = (error_token (text "Unterminated string") k, k, [])
close_string (c ∷ rest) k = (make_token l_string (advance c k), advance c k, rest)

unfoldable pub scan_string : Text → Lexer → Scan
unfolding advance_while close_string
scan_string source k =
    let (body, rest) = advance_while (λ c. not (c == 39)) source k in close_string rest body

-- The fraction of a number: '.' and digits, if a second '.' does not follow.
unfoldable pub scan_fraction : Text → Lexer → Bool × Lexer × Text
unfolding advance_while
scan_fraction [] k = (false, k, [])
scan_fraction (c ∷ rest) k =
    let (digits, left) = advance_while is_digit rest (advance c k) in
    if c == 46 && not (peek rest == 46) then (true, digits, left) else (false, k, c ∷ rest)

-- The sign of an exponent, if there is one.
unfoldable pub skip_sign : Text → Lexer → Lexer × Text
skip_sign [] k = (k, [])
skip_sign (c ∷ rest) k = if c == 43 || c == 45 then (advance c k, rest) else (k, c ∷ rest)

-- The exponent of a number: 'e' or 'E', a sign if there is one, and digits.
unfoldable pub scan_exponent : Text → Lexer → Bool × Lexer × Text
unfolding advance_while skip_sign
scan_exponent [] k = (false, k, [])
scan_exponent (c ∷ rest) k =
    let (signed, unsigned) = skip_sign rest (advance c k) in
    let (digits, left) = advance_while is_digit unsigned signed in
    if c == 101 || c == 69 then (true, digits, left) else (false, k, c ∷ rest)

unfoldable pub scan_number : Text → Lexer → Scan
unfolding scan_fraction scan_exponent
scan_number source k =
    let (whole, rest) = advance_while is_digit source k in
    let (fraction, middle, after) = scan_fraction rest whole in
    let (exponent, last, left) = scan_exponent after middle in
    (make_token (if fraction || exponent then l_float else l_int) last, last, left)

unfoldable pub word_type : Text → TokenType
unfolding keyword
word_type s = elim (keyword (to_upper s) keyword_map) [ some t ↦ t | none ↦ l_ident ]

unfoldable pub scan_identifier_or_keyword : Text → Lexer → Scan
unfolding word_type advance_while
scan_identifier_or_keyword source k =
    let (last, left) = advance_while is_word source k in
    (make_token (word_type last.lexeme) last, last, left)

-- The symbols of one character that are not the beginning of another token.
abbrev pub symbol_map : List (ℕ × TokenType)
symbol_map =
    (123, s_lbrace)
    ∷ (125, s_rbrace)
    ∷ (40, s_lparen)
    ∷ (41, s_rparen)
    ∷ (91, s_lbracket)
    ∷ (93, s_rbracket)
    ∷ (44, s_comma)
    ∷ (58, s_colon)
    ∷ (59, s_semicolon)
    ∷ (46, s_dot)
    ∷ (61, s_eq)
    ∷ []

unfoldable pub symbol : ℕ → List (ℕ × TokenType) → Option TokenType
symbol c [] = none
symbol c ((d, t) ∷ symbols) = let rest = symbol c symbols in if c == d then some t else rest

-- The cases '>' and '<': `wide` where a '=' follows.
unfoldable pub scan_order : TokenType → TokenType → Text → Lexer → Scan
unfolding match_char
scan_order wide narrow source k =
    let (equal, after, left) = match_char 61 source k in
    (make_token (if equal then wide else narrow) after, after, left)

-- The switch of scan_token, after it has advanced over `c`.
unfoldable pub scan_symbol : ℕ → Text → Lexer → Scan
unfolding scan_string scan_order scan_number symbol
scan_symbol c source k =
    if c == 39
    then scan_string source k
    else if c == 62
    then scan_order s_ge s_gt source k
    else if c == 60
    then scan_order s_le s_lt source k
    else if c == 45
    then (if is_digit (peek source)
        then scan_number source k
        else (make_token s_minus k, k, source))
    else elim (symbol c symbol_map) [
      | some t ↦ (make_token t k, k, source)
      | none ↦ (error_token (text "Unexpected character: '" ++ (c ∷ text "'")) k, k, source)
    ]

unfoldable pub scan_from : ℕ → Text → Lexer → Scan
unfolding scan_symbol scan_identifier_or_keyword
scan_from c source k =
    if is_alpha c || c == 95
    then scan_identifier_or_keyword source k
    else if is_digit c
    then scan_number source k
    else scan_symbol c source k

-- The token that begins where the blanks end.
unfoldable pub scan_rest : Lexer → Text → Scan
unfolding begin advance scan_from
scan_rest blank [] = (make_token t_eof (begin blank), begin blank, [])
scan_rest blank (c ∷ left) = scan_from c left (advance c (begin blank))

unfoldable pub scan_token : Text → Lexer → Scan
unfolding skip scan_rest
scan_token source k = let (blank, rest) = skip false source k in scan_rest blank rest

-- The loop of tokenize; `none` means that the fuel ran out.
unfoldable pub tokenize_from : ℕ → Text → Lexer → Option (Result (List Token))
unfolding scan_token
tokenize_from zero source k = none
tokenize_from (suc f) source k =
    let (token, after, left) = scan_token source k in
    let next : Option (Result (List Token)) = elim (tokenize_from f left after) [
      | none ↦ none
      | some (err e) ↦ some (err e)
      | some (ok tokens) ↦ some (ok (token ∷ tokens))
    ] in
    if type_index token.type_of == type_index t_error
    then some (fail syntax_error token.lexeme (text "lexer"))
    else if type_index token.type_of == type_index t_eof
    then some (ok (token ∷ []))
    else next

abbrev pub init : Lexer
init = record { lexeme = []; line = 1; column = 1; token_column = 1 }

-- A token for each character and the end of the source are enough.
unfoldable pub tokenize : Text → Option (Result (List Token))
unfolding tokenize_from
tokenize source = tokenize_from (suc (length source)) source init
