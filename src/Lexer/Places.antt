-- ===== src/Lexer/Places.antt =====
-- A token type is known by its place in the enumeration.
use synthgen_core.Prelude.{◌≡◌, refl, sym, ap, ◌∙◌, some, List, [], ◌∷◌, get_elem?}
use synthgen_core.Lexer.{
  TokenType, type_index, k_define, k_type, k_load, k_data, k_into, k_from, k_constraint, k_on,
  k_generate, k_table, k_with, k_limit, k_between, k_and, k_not, k_null, k_order, k_float, k_int,
  k_datetime, k_string, k_enum, k_during, k_when, k_then, k_avg, k_over, k_interval, k_rows,
  k_partition, k_by, k_session, k_gap, k_update, k_model, k_incorporate, k_where, k_as, k_of,
  k_version, k_include, k_mode, k_fallback, k_save, l_float, l_int, l_string, l_ident, s_lbrace,
  s_rbrace, s_lparen, s_rparen, s_lbracket, s_rbracket, s_comma, s_colon, s_semicolon, s_dot, s_eq,
  s_gt, s_lt, s_ge, s_le, s_minus, t_eof, t_error,
}

abbrev all_types : List TokenType
all_types =
    k_define ∷ k_type ∷ k_load ∷ k_data ∷ k_into ∷ k_from ∷ k_constraint ∷ k_on ∷ k_generate
    ∷ k_table ∷ k_with ∷ k_limit ∷ k_between ∷ k_and ∷ k_not ∷ k_null ∷ k_order ∷ k_float ∷ k_int
    ∷ k_datetime ∷ k_string ∷ k_enum ∷ k_during ∷ k_when ∷ k_then ∷ k_avg ∷ k_over ∷ k_interval
    ∷ k_rows ∷ k_partition ∷ k_by ∷ k_session ∷ k_gap ∷ k_update ∷ k_model ∷ k_incorporate ∷ k_where
    ∷ k_as ∷ k_of ∷ k_version ∷ k_include ∷ k_mode ∷ k_fallback ∷ k_save ∷ l_float ∷ l_int
    ∷ l_string ∷ l_ident ∷ s_lbrace ∷ s_rbrace ∷ s_lparen ∷ s_rparen ∷ s_lbracket ∷ s_rbracket
    ∷ s_comma ∷ s_colon ∷ s_semicolon ∷ s_dot ∷ s_eq ∷ s_gt ∷ s_lt ∷ s_ge ∷ s_le ∷ s_minus ∷ t_eof
    ∷ t_error ∷ []

get_elem?-type_index : (t : TokenType) → get_elem? all_types (type_index t) ≡ some t
unfolding type_index
get_elem?-type_index k_define = refl
get_elem?-type_index k_type = refl
get_elem?-type_index k_load = refl
get_elem?-type_index k_data = refl
get_elem?-type_index k_into = refl
get_elem?-type_index k_from = refl
get_elem?-type_index k_constraint = refl
get_elem?-type_index k_on = refl
get_elem?-type_index k_generate = refl
get_elem?-type_index k_table = refl
get_elem?-type_index k_with = refl
get_elem?-type_index k_limit = refl
get_elem?-type_index k_between = refl
get_elem?-type_index k_and = refl
get_elem?-type_index k_not = refl
get_elem?-type_index k_null = refl
get_elem?-type_index k_order = refl
get_elem?-type_index k_float = refl
get_elem?-type_index k_int = refl
get_elem?-type_index k_datetime = refl
get_elem?-type_index k_string = refl
get_elem?-type_index k_enum = refl
get_elem?-type_index k_during = refl
get_elem?-type_index k_when = refl
get_elem?-type_index k_then = refl
get_elem?-type_index k_avg = refl
get_elem?-type_index k_over = refl
get_elem?-type_index k_interval = refl
get_elem?-type_index k_rows = refl
get_elem?-type_index k_partition = refl
get_elem?-type_index k_by = refl
get_elem?-type_index k_session = refl
get_elem?-type_index k_gap = refl
get_elem?-type_index k_update = refl
get_elem?-type_index k_model = refl
get_elem?-type_index k_incorporate = refl
get_elem?-type_index k_where = refl
get_elem?-type_index k_as = refl
get_elem?-type_index k_of = refl
get_elem?-type_index k_version = refl
get_elem?-type_index k_include = refl
get_elem?-type_index k_mode = refl
get_elem?-type_index k_fallback = refl
get_elem?-type_index k_save = refl
get_elem?-type_index l_float = refl
get_elem?-type_index l_int = refl
get_elem?-type_index l_string = refl
get_elem?-type_index l_ident = refl
get_elem?-type_index s_lbrace = refl
get_elem?-type_index s_rbrace = refl
get_elem?-type_index s_lparen = refl
get_elem?-type_index s_rparen = refl
get_elem?-type_index s_lbracket = refl
get_elem?-type_index s_rbracket = refl
get_elem?-type_index s_comma = refl
get_elem?-type_index s_colon = refl
get_elem?-type_index s_semicolon = refl
get_elem?-type_index s_dot = refl
get_elem?-type_index s_eq = refl
get_elem?-type_index s_gt = refl
get_elem?-type_index s_lt = refl
get_elem?-type_index s_ge = refl
get_elem?-type_index s_le = refl
get_elem?-type_index s_minus = refl
get_elem?-type_index t_eof = refl
get_elem?-type_index t_error = refl

some-injective : (t u : TokenType) → some t ≡ some u → t ≡ u
some-injective t u e = cc

pub type_index-injective : (t u : TokenType) → type_index t ≡ type_index u → t ≡ u
type_index-injective t u e =
    some-injective t u
      (sym (get_elem?-type_index t) ∙ ap (get_elem? all_types) e ∙ get_elem?-type_index u)
