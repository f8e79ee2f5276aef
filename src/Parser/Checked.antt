-- ===== src/Parser/Checked.antt =====
-- The statements that the parser returns.
use synthgen_core.Prelude.{
  ℕ, ◌≤◌, Text, text, text_mem, text_eq_iff, true, not, ◌&&◌, ◌≡◌, ◌≢◌, refl, subst, List, [],
  arith,
}
use synthgen_core.Prelude.Int.{pos, ltb_ℤ}
use synthgen_core.Common.Result.{syntax_error, invalid_argument}
use synthgen_core.Common.Double.{Double}
use synthgen_core.Lexer.{
  k_constraint, k_load, k_data, k_into, k_from, k_on, k_generate, k_table, k_with, k_limit, l_int,
  l_string, l_ident, s_lbrace, s_rbrace,
}
use synthgen_core.Lexer.Shapes.{IsToken}
use synthgen_core.Parser.State.{check, LoadDataStmt, DefineConstraintStmt, Parser, same_token_type}
use synthgen_core.Parser.Columns.{strip_quotes}
use synthgen_core.Parser.Statements.{parse_load_data, parse_define_constraint, parse_generate_table}
use synthgen_core.Parser.Fine.{
  Within, Moves, Fine, bind, reject_if-Fine, checks-Fine, Known, pure-Known,
}
use synthgen_core.Parser.Steps.{expect-Moves, expect-Fine, require-Fine, advance-Fine}
use synthgen_core.Parser.Ranges.{IsToken-ne-nil, skip_semicolon-Fine}
use synthgen_core.Parser.Items.{
  ConstraintRead, TableRead, constraint_items-Fine, guard-Fine, limit_value-Fine,
  reject_unsupported-Fine, require_defined-bind,
}

module _ {F : Type 0} ⦃d : Double F⦄ where
  pub parse_define_constraint-Fine :
      {types : List Text} (f n : ℕ)
      → n ≤ f
      → Fine n types
          (Known ConstraintRead (λ (stmt : DefineConstraintStmt F). stmt.type_name))
          (parse_define_constraint f)
  unfolding parse_define_constraint text_mem
  parse_define_constraint-Fine f n h = bind (expect-Fine k_constraint) λ _ _.
      bind (require-Fine l_ident (text "Expected constraint name")) λ name token.
        bind (expect-Fine k_on) λ _ _.
          bind (require-Fine l_ident (text "Expected type name after ON")) λ type_name _.
            require_defined-bind type_name.lexeme λ _. bind (expect-Fine s_lbrace) λ _ _.
              bind (constraint_items-Fine f n h) λ items reads. bind reject_unsupported-Fine λ _ _.
                bind (require-Fine s_rbrace (text "Expected '}' to close constraint definition"))
                  λ _ _. bind skip_semicolon-Fine λ _ _.
                    pure-Known ConstraintRead (λ stmt. stmt.type_name)
                      (record {
                        constraint_name = name.lexeme;
                        type_name = type_name.lexeme;
                        items = items;
                      })
                      (record {
                        named = IsToken-ne-nil name.type_of name.lexeme token.0;
                        inhabited = reads.0;
                        items_read = reads.1;
                      })
                      (ground (arith, text_eq_iff type_name.lexeme type_name.lexeme))

-- A statement that loads data names a type, and a path that stands in quotes in the source.
pub record LoadRead (stmt : LoadDataStmt) : Type 0 where
  pub type_named : stmt.type_name ≢ []
  pub path_lexeme : Text
  pub path_token : IsToken l_string path_lexeme
  pub path_inside : stmt.file_path ≡ strip_quotes path_lexeme

-- The first token of these statements is there when they are called.
module _ {n : ℕ} {types : List Text} (p : Parser) (w : Within n types p) where
  pub parse_load_data-Moves :
      check k_load p.tokens ≡ true
      → Moves n types (Known LoadRead (λ (stmt : LoadDataStmt). stmt.type_name)) (parse_load_data p)
  unfolding parse_load_data text_mem
  parse_load_data-Moves e = expect-Moves k_load p w e λ _ k less. bind (expect-Fine k_data) λ _ _.
      bind (expect-Fine k_into) λ _ _.
        bind (require-Fine l_ident (text "Expected type name after INTO")) λ type_name name_token.
          require_defined-bind type_name.lexeme λ _. bind (expect-Fine k_from) λ _ _.
            bind (require-Fine l_string (text "Expected file path string after FROM"))
              λ path path_token. bind skip_semicolon-Fine λ _ _.
                pure-Known LoadRead (λ stmt. stmt.type_name)
                  (record { type_name = type_name.lexeme; file_path = strip_quotes path.lexeme })
                  (record {
                    type_named = IsToken-ne-nil type_name.type_of type_name.lexeme name_token.0;
                    path_lexeme = path.lexeme;
                    path_token = subst (λ t. IsToken t path.lexeme) path_token.1 path_token.0;
                    path_inside = refl;
                  })
                  (ground (arith, text_eq_iff type_name.lexeme type_name.lexeme))

  pub parse_generate_table-Moves :
      check k_generate p.tokens ≡ true
      → Moves n types (Known TableRead (λ stmt. stmt.type_name)) (parse_generate_table p)
  unfolding parse_generate_table text_mem
  parse_generate_table-Moves e = expect-Moves k_generate p w e λ _ k less.
      bind (expect-Fine k_table) λ _ _.
        bind (require-Fine l_ident (text "Expected table name")) λ name token.
          bind (expect-Fine k_from) λ _ _.
            bind (require-Fine l_ident (text "Expected type name after FROM")) λ type_name _.
              require_defined-bind type_name.lexeme λ _. bind (expect-Fine k_with) λ _ _.
                bind (checks-Fine k_constraint) λ constraint_next _.
                  bind (checks-Fine l_ident) λ ident_next _.
                    bind
                      (guard-Fine (not constraint_next && not ident_next) syntax_error
                        (text "Expected CONSTRAINTS after WITH"))
                      λ _ _. bind advance-Fine λ _ _.
                        bind (require-Fine l_ident (text "Expected constraint name"))
                          λ constraint found. bind (expect-Fine k_limit) λ _ _.
                            bind advance-Fine λ limit_token _.
                              bind
                                (guard-Fine (not (same_token_type limit_token.type_of l_int))
                                  syntax_error (text "Expected integer after LIMIT"))
                                λ _ _. bind (limit_value-Fine limit_token.lexeme) λ limit _.
                                  bind
                                    (reject_if-Fine (ltb_ℤ limit (pos 0)) invalid_argument
                                      (text "LIMIT must be non-negative"))
                                    λ _ at_least. bind skip_semicolon-Fine λ _ _.
                                      pure-Known TableRead (λ stmt. stmt.type_name)
                                        (record {
                                          table_name = name.lexeme;
                                          type_name = type_name.lexeme;
                                          constraint_name = constraint.lexeme;
                                          limit = limit;
                                        })
                                        (record {
                                          table_named =
                                              IsToken-ne-nil name.type_of name.lexeme token.0;
                                          constraint_named =
                                              IsToken-ne-nil constraint.type_of constraint.lexeme
                                                found.0;
                                          limit_from_zero = at_least;
                                        })
                                        (ground
                                          (arith, text_eq_iff type_name.lexeme type_name.lexeme))
