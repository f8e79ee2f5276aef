-- ===== src/Parser/State.antt =====
-- parser/ast.h, and the state and the token helpers of parser.h and parser.cpp. A parse function is
-- a `Parse`: it goes from the parser's state to an answer and the state after it.
use synthgen_core.Prelude.{
  Text, text, Bool, true, false, not, ◌&&◌, List, [], ◌∷◌, ◌++◌, ◌==◌, if◌then◌else◌,
}
use synthgen_core.Prelude.Decimal.{to_string}
use synthgen_core.Prelude.Int.{ℤ}
use synthgen_core.Common.Result.{ErrorCode, Error, syntax_error}
use synthgen_core.Schema.{DefineTypeStmt}
use synthgen_core.Lexer.{TokenType, Token, type_index, t_eof, t_error, s_semicolon}

pub record LoadDataStmt : Type 0 where
  pub type_name : Text
  pub file_path : Text

pub data ConstraintOperator : Type 0 where
  between greater_than less_than greater_equal less_equal : ConstraintOperator

pub record ConstraintItem (F : Type 0) : Type 0 where
  pub column_name : Text
  pub op : ConstraintOperator
  pub value_min : F
  pub value_max : F

pub record DefineConstraintStmt (F : Type 0) : Type 0 where
  pub constraint_name : Text
  pub type_name : Text
  pub items : List (ConstraintItem F)

pub record GenerateTableStmt : Type 0 where
  pub table_name : Text
  pub type_name : Text
  pub constraint_name : Text
  pub limit : ℤ

pub data Statement (F : Type 0) : Type 0 where
  define_type : DefineTypeStmt F → Statement F
  load_data : LoadDataStmt → Statement F
  define_constraint : DefineConstraintStmt F → Statement F
  generate_table : GenerateTableStmt → Statement F

-- `tokens` is `tokens_` from `current_` on, and `previous` the token before; `errors_` is in the
-- result of the loop.
pub record Parser : Type 0 where
  pub previous : Token
  pub tokens : List Token
  pub defined_types : List Text

-- A call returns a value, returns an error, or throws (std::stod and std::stoll, out of range); it
-- is stuck where the fuel of a loop ran out.
pub data Answer (A : Type 0) : Type 0 where
  returned : A → Answer A
  failed : Error → Answer A
  thrown : Answer A
  stuck : Answer A

abbrev pub Parse : Type 0 → Type 0
Parse A = Parser → Answer A × Parser

-- What follows a call: its errors and exceptions leave the caller too.
unfoldable pub continue_with :
    {A B : Type 0} → (A → Parse B) → Answer A × Parser → Answer B × Parser
continue_with f (returned a, p) = f a p
continue_with f (failed e, p) = (failed e, p)
continue_with f (thrown, p) = (thrown, p)
continue_with f (stuck, p) = (stuck, p)

infixl 5 ◌>>=◌ ◌>>◌
unfoldable pub ◌>>=◌ : {A B : Type 0} → Parse A → (A → Parse B) → Parse B
unfolding continue_with
m >>= f = λ p. continue_with f (m p)

abbrev pub ◌>>◌ : {A B : Type 0} → Parse A → Parse B → Parse B
m >> k = m >>= λ _. k

unfoldable pub pure : {A : Type 0} → A → Parse A
pure a = λ p. (returned a, p)

-- return Error(code, message);
unfoldable pub reject : {A : Type 0} → ErrorCode → Text → Parse A
reject code message = λ p. (failed (record { code = code; message = message; component = [] }), p)

-- if (test) return Error(code, message);
unfoldable pub reject_if : Bool → ErrorCode → Text → Parse (Unit {0})
unfolding pure reject
reject_if test code message = if test then reject code message else pure tt

abbrev pub same_token_type : TokenType → TokenType → Bool
same_token_type a b = type_index a == type_index b

-- The token after the last one is never read: the last one is the end of the source.
abbrev pub end_token : Token
end_token = record { type_of = t_eof; lexeme = []; line = 0; column = 0 }

unfoldable pub peek : List Token → Token
peek [] = end_token
peek (t ∷ ts) = t

unfoldable pub is_at_end : List Token → Bool
is_at_end [] = true
is_at_end (t ∷ ts) = same_token_type t.type_of t_eof

unfoldable pub check : TokenType → List Token → Bool
unfolding is_at_end
check wanted [] = false
check wanted (t ∷ ts) = not (is_at_end (t ∷ ts)) && same_token_type t.type_of wanted

-- The two tests, as steps of a parse function.
unfoldable pub at_end : Parse Bool
unfolding is_at_end
at_end = λ p. (returned (is_at_end p.tokens), p)

unfoldable pub checks : TokenType → Parse Bool
unfolding check
checks wanted = λ p. (returned (check wanted p.tokens), p)

unfoldable pub advance_in : Token → List Token → List Text → Answer Token × Parser
advance_in previous [] types =
    (returned previous, record { previous = previous; tokens = []; defined_types = types })
advance_in previous (t ∷ ts) types =
    if same_token_type t.type_of t_eof
    then (returned previous, record { previous = previous; tokens = t ∷ ts; defined_types = types })
    else (returned t, record { previous = t; tokens = ts; defined_types = types })

unfoldable pub advance : Parse Token
unfolding advance_in
advance = λ p. advance_in p.previous p.tokens p.defined_types

unfoldable pub match : TokenType → Parse Bool
unfolding ◌>>=◌ check advance pure
match wanted = λ p. if check wanted p.tokens then (advance >> pure true) p else pure false p

-- The token that `expect` makes where another one stands.
unfoldable pub unexpected : TokenType → Token → Token
unexpected wanted t = record {
  type_of = t_error;
  lexeme =
      text "Expected "
      ++ (to_string (type_index wanted) ++ (text " but got '" ++ (t.lexeme ++ text "'")));
  line = t.line;
  column = t.column;
}

unfoldable pub expect : TokenType → Parse Token
unfolding check advance peek unexpected
expect wanted = λ p.
    if check wanted p.tokens then advance p else (returned (unexpected wanted (peek p.tokens)), p)

-- auto t = expect(type); if (t.type == T_ERROR) return Error(kSyntaxError, message);
unfoldable pub require : TokenType → Text → Parse Token
unfolding ◌>>=◌ expect reject_if pure
require wanted message = do
  t ← expect wanted
  reject_if (same_token_type t.type_of t_error) syntax_error message
  pure t

-- if (check(S_SEMICOLON)) advance();
unfoldable pub skip_semicolon : Parse Bool
unfolding match
skip_semicolon = match s_semicolon

-- defined_types_.push_back(name);
unfoldable pub define : Text → Parse (Unit {0})
define name = λ p. (returned tt, record p { defined_types = p.defined_types ++ name ∷ [] })
