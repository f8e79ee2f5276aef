-- ===== src/Parser/Typed.antt =====
-- The columns and the type definitions that the parser returns.
use synthgen_core.Prelude.{
  ℕ, zero, suc, ◌≤◌, Text, text, text_mem, text_eq_iff, false, ◌&&◌, ◌≡◌, ◌≢◌, none, List, [], ◌∷◌,
  ◌++◌, arith, All, Pairs,
}
use synthgen_core.Common.Result.{syntax_error, invalid_schema, duplicate_column_name}
use synthgen_core.Common.Types.{DataType, ColumnDef, float, int, datetime, string, enum}
use synthgen_core.Common.Double.{Double}
use synthgen_core.Schema.{DefineTypeStmt, is_empty}
use synthgen_core.Lexer.{
  TokenType, k_float, k_int, k_datetime, k_string, k_enum, k_type, l_ident, s_lbrace, s_rbrace,
  s_comma, s_colon,
}
use synthgen_core.Schema.Validate.{NamesApart, Unseen, Unseen-cons}
use synthgen_core.Parser.State.{same_token_type}
use synthgen_core.Parser.Columns.{
  ColumnType, plain_type, ranged_type, column_type, parse_column_def, parse_columns,
  parse_define_type,
}
use synthgen_core.Parser.Fine.{
  Fine, Value, bind, pure-Fine, reject-Fine, if-Fine, reject_if-Fine, at_end-Fine, stuck-Fine,
  Known, pure-Known,
}
use synthgen_core.Parser.Steps.{match-bind, expect-Fine, require-Fine, advance-Fine, define-bind}
use synthgen_core.Parser.Ranges.{
  IsToken-ne-nil, RangeRead, and-left, enum_type-Fine, modifiers-Fine, more_before-Fine,
  parse_range-Fine, skip_semicolon-Fine, open_range,
}

module _ {F : Type 0} ⦃d : Double F⦄ where
  -- A range that was read, and values where the type is ENUM.
  abbrev TypeRead : ColumnType F → Type 0
  TypeRead t = RangeRead t.range_min t.range_max × (t.type ≡ enum → t.enum_values ≢ [])

  ranged_type-Fine :
      {n : ℕ} {types : List Text} (t : DataType) (a b : Text)
      → t ≢ enum
      → Fine n types (Value TypeRead) (ranged_type t a b)
  unfolding ranged_type
  ranged_type-Fine t a b ne = bind (parse_range-Fine a b) λ range in_order.
      pure-Fine TypeRead
        (record { type = t; range_min = range.0; range_max = range.1; enum_values = [] })
        (in_order, λ e. absurd (ne e))

  plain_type-TypeRead : (t : DataType) → t ≢ enum → TypeRead (plain_type t)
  plain_type-TypeRead t ne = (open_range, λ e. absurd (ne e))

  column_type-Fine :
      {types : List Text} (f n : ℕ) (t : TokenType)
      → n ≤ f
      → Fine n types (Value TypeRead) (column_type f t)
  unfolding column_type
  column_type-Fine f n t h =
      if-Fine (same_token_type t k_float) (λ _. ranged_type-Fine float _ _ (λ e. cc))
        λ _.
          if-Fine (same_token_type t k_int) (λ _. ranged_type-Fine int _ _ (λ e. cc))
            λ _.
              if-Fine (same_token_type t k_datetime)
                (λ _.
                  pure-Fine TypeRead (plain_type datetime) (plain_type-TypeRead datetime (λ e. cc)))
                λ _.
                  if-Fine (same_token_type t k_string)
                    (λ _.
                      pure-Fine TypeRead (plain_type string) (plain_type-TypeRead string (λ e. cc)))
                    λ _.
                      if-Fine (same_token_type t k_enum)
                        (λ _. bind (enum_type-Fine f n h) λ values some_value.
                          pure-Fine TypeRead
                            (record {
                              type = enum;
                              range_min = none;
                              range_max = none;
                              enum_values = values;
                            })
                            (open_range, λ _. some_value))
                        (λ _. reject-Fine _ _)

  -- A column that was read.
  abbrev pub ColumnRead : ColumnDef F → Type 0
  ColumnRead c =
      (c.name ≢ []) × RangeRead c.range_min c.range_max × (c.type ≡ enum → c.enum_values ≢ [])

  parse_column_def-Fine :
      {types : List Text} (f n : ℕ) → n ≤ f → Fine n types (Value ColumnRead) (parse_column_def f)
  unfolding parse_column_def
  parse_column_def-Fine f n h =
      bind (require-Fine l_ident (text "Expected column name")) λ name token.
        bind (require-Fine s_colon (text "Expected ':' after column name")) λ _ _.
          bind at_end-Fine λ ended _.
            bind (reject_if-Fine ended syntax_error (text "Expected type after ':'")) λ _ _.
              bind advance-Fine λ type_token _.
                bind (column_type-Fine f n type_token.type_of h) λ t read.
                  bind (modifiers-Fine f n (false, false) h) λ m _.
                    pure-Fine ColumnRead
                      (record {
                        name = name.lexeme;
                        type = t.type;
                        not_null = m.0;
                        is_order = m.1;
                        range_min = t.range_min;
                        range_max = t.range_max;
                        enum_values = t.enum_values;
                      })
                      (IsToken-ne-nil name.type_of name.lexeme token.0, read.0, read.1)

  -- Columns that were read, with names that differ from one another and from the names before.
  abbrev ColumnsRead : List Text → List (ColumnDef F) → Type 0
  ColumnsRead seen cs = (cs ≢ []) × All ColumnRead cs × Pairs NamesApart cs × All (Unseen seen) cs

  ColumnsRead-one :
      (seen : List Text) (c : ColumnDef F)
      → ColumnRead c
      → text_mem c.name seen ≡ false
      → ColumnsRead seen (c ∷ [])
  ColumnsRead-one seen c read new = (λ e. cc, (read, tt), (tt, tt), (new, tt))

  ColumnsRead-cons :
      (seen : List Text) (c : ColumnDef F) (cs : List (ColumnDef F))
      → ColumnRead c
      → text_mem c.name seen ≡ false
      → ColumnsRead (c.name ∷ seen) cs
      → ColumnsRead seen (c ∷ cs)
  ColumnsRead-cons seen c cs read new (_, reads, apart, unseen) =
      let (ne, old) = (Unseen-cons c.name seen cs).0 unseen in
      (λ e. cc, (read, reads), (ne, apart), (new, old))

  parse_columns-Fine :
      {types : List Text} (g f n : ℕ) (seen : List Text)
      → n ≤ g
      → n ≤ f
      → Fine n types (Value (ColumnsRead seen)) (parse_columns g f seen)
  unfolding parse_columns
  parse_columns-Fine g zero n seen i h = stuck-Fine h
  parse_columns-Fine g (suc f) n seen i h = bind (parse_column_def-Fine g n i) λ col read.
      bind
        (reject_if-Fine (text_mem col.name seen) duplicate_column_name
          (text "Duplicate column name: " ++ col.name))
        λ _ new. match-bind s_comma λ comma k le lt. bind (more_before-Fine s_rbrace) λ more _.
          if-Fine (comma && more)
            (λ e.
              bind
                (parse_columns-Fine g f k (col.name ∷ seen) (omega (arith, i, le))
                  (omega (arith, h, lt (and-left comma more e))))
                λ rest reads.
                  pure-Fine (ColumnsRead seen) (col ∷ rest)
                    (ColumnsRead-cons seen col rest read new reads))
            (λ _. pure-Fine (ColumnsRead seen) (col ∷ []) (ColumnsRead-one seen col read new))

  -- A type definition that was read: a schema that is well formed but for NaN in the ranges.
  pub record TypeDefined (stmt : DefineTypeStmt F) : Type 0 where
    pub named : stmt.type_name ≢ []
    pub inhabited : stmt.columns ≢ []
    pub columns_read : All ColumnRead stmt.columns
    pub names_apart : Pairs NamesApart stmt.columns

  pub parse_define_type-Fine :
      {types : List Text} (f n : ℕ)
      → n ≤ f
      → Fine n types (Known TypeDefined (λ stmt. stmt.type_name)) (parse_define_type f)
  unfolding parse_define_type text_mem
  parse_define_type-Fine {types} f n h = bind (expect-Fine k_type) λ _ _.
      bind at_end-Fine λ ended _.
        bind (reject_if-Fine ended syntax_error (text "Expected type name")) λ _ _.
          bind (require-Fine l_ident (text "Expected type name identifier")) λ name token.
            define-bind name.lexeme λ _.
              bind (require-Fine s_lbrace (text "Expected '{' after type name")) λ _ _.
                bind at_end-Fine λ ended _.
                  bind (reject_if-Fine ended syntax_error (text "Expected column definitions"))
                    λ _ _.
                      bind (parse_columns-Fine f f n [] h h)
                        λ columns (some_column, reads, apart, _).
                          bind
                            (require-Fine s_rbrace (text "Expected '}' to close type definition"))
                            λ _ _. bind skip_semicolon-Fine λ _ _.
                              bind
                                (reject_if-Fine (is_empty columns) invalid_schema
                                  (text "Type must have at least one column"))
                                λ _ _.
                                  pure-Known TypeDefined (λ stmt. stmt.type_name)
                                    (record { type_name = name.lexeme; columns = columns })
                                    (record {
                                      named = IsToken-ne-nil name.type_of name.lexeme token.0;
                                      inhabited = some_column;
                                      columns_read = reads;
                                      names_apart = apart;
                                    })
                                    (ground (arith, text_eq_iff name.lexeme name.lexeme))
