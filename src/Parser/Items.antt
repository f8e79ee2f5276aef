-- ===== src/Parser/Items.antt =====
-- The items of the constraints that the parser reads.
use synthgen_core.Prelude.{
  ℕ, zero, suc, ◌≤◌, Text, text, text_mem, Bool, true, false, not, ◌||◌, ◌≡◌, ◌≢◌, refl, Option,
  none, some, List, [], ◌∷◌, ◌++◌, arith, All,
}
use synthgen_core.Prelude.Int.{ℤ, pos, ltb_ℤ}
use synthgen_core.Common.Result.{ErrorCode, syntax_error, undefined_type, unsupported_in_v1}
use synthgen_core.Common.Double.{Double}
use synthgen_core.Lexer.{
  k_between, k_and, k_during, k_when, k_avg, k_over, l_ident, s_rbrace, s_comma, s_gt, s_lt, s_ge,
  s_le, s_minus,
}
use synthgen_core.Parser.State.{
  ConstraintOperator, between, greater_than, less_than, greater_equal, less_equal, ConstraintItem,
  DefineConstraintStmt, GenerateTableStmt, Parser, Parse, thrown, ◌>>=◌, continue_with, pure,
  reject, reject_if,
}
use synthgen_core.Parser.Columns.{is_number}
use synthgen_core.Parser.Statements.{
  require_defined, reject_during_when, reject_unsupported, number_after, item_above, item_below,
  between_item, order_item, operator_item, parse_constraint_item, constraint_items, stoll,
  limit_value,
}
use synthgen_core.Parser.Fine.{
  Within, Sat, Fine, Value, Any, bind, pure-Fine, reject-Fine, if-Fine, reject_if-Fine, checks-Fine,
  stuck-Fine, thrown-Fine,
}
use synthgen_core.Parser.Steps.{
  match-bind, match-Fine, expect-Fine, require-Fine, advance-Fine, Sat-defined,
}
use synthgen_core.Parser.Ranges.{
  IsToken-ne-nil, more_before-Fine, IsRead, number-IsNumeral, scaled-Fine, signed_number-Fine,
}

module _ {n : ℕ} {types : List Text} where
  -- What follows the test that a type is defined may rely on it.
  pub require_defined-bind :
      {B : Type 0} {R : B → Parser → Type 0} {f : Unit {0} → Parse B} (name : Text)
      → ((u : Unit {0}) → Fine n (name ∷ types) R (f u))
      → Fine n types R (require_defined name >>= f)
  unfolding ◌>>=◌ require_defined reject_if reject pure continue_with
  require_defined-bind {B} {R} {f} name next = record {
    at = λ p w.
        decide p w (text_mem name p.defined_types) (λ e. Sat-defined name (f tt) p (next tt) w e);
  }
    where
      decide :
          (p : Parser)
          → Within n types p
          → (b : Bool) → (b ≡ true → Sat n types R (f tt p))
          → Sat n types R (
              continue_with f
                (reject_if (not b) undefined_type (text "Undefined type: " ++ name) p))
      decide p w true h = h refl
      decide p w false h = record { within = w; answered = tt }

  pub guard-Fine :
      (b : Bool) (code : ErrorCode) (message : Text)
      → Fine n types (Value Any) (reject_if b code message)
  unfolding reject_if
  guard-Fine b code message = if-Fine b (λ _. reject-Fine code message) (λ _. pure-Fine Any tt tt)

  reject_during_when-Fine : Fine n types (Value Any) reject_during_when
  unfolding reject_during_when
  reject_during_when-Fine = bind (checks-Fine k_during) λ during _.
      bind
        (guard-Fine during unsupported_in_v1
          (text "DURING constraints are not supported in v1. Supported from v2."))
        λ _ _. bind (checks-Fine k_when) λ when _.
          guard-Fine when unsupported_in_v1
            (text "WHEN constraints are not supported in v1. Supported from v2.")

  pub reject_unsupported-Fine : Fine n types (Value Any) reject_unsupported
  unfolding reject_unsupported
  reject_unsupported-Fine = bind reject_during_when-Fine λ _ _. bind (checks-Fine k_avg) λ avg _.
      bind (checks-Fine k_over) λ over _.
        guard-Fine (avg || over) unsupported_in_v1
          (text "Aggregate constraints are not supported in v1. Supported from v2.")

  pub limit_value-Fine : (s : Text) → Fine n types (Value Any) (limit_value s)
  unfolding limit_value
  limit_value-Fine s = by_result (stoll s)
    where
      by_result :
          (o : Option ℤ)
          → Fine n types (Value Any) (elim o [ none ↦ λ p. (thrown, p) | some i ↦ pure i ])
      by_result none = thrown-Fine
      by_result (some i) = pure-Fine Any i tt

-- A table has a name, a constraint and a limit.
pub record TableRead (stmt : GenerateTableStmt) : Type 0 where
  pub table_named : stmt.table_name ≢ []
  pub constraint_named : stmt.constraint_name ≢ []
  pub limit_from_zero : ltb_ℤ stmt.limit (pos 0) ≡ false

module _ {F : Type 0} ⦃d : Double F⦄ where
  -- The values of an item: the ends that its operator uses were read, and the other one is zero.
  abbrev ValuesRead : ConstraintOperator → F → F → Type 0
  ValuesRead between lo hi = IsRead lo × IsRead hi
  ValuesRead greater_than lo hi = IsRead lo × (hi ≡ d.zero_value)
  ValuesRead greater_equal lo hi = IsRead lo × (hi ≡ d.zero_value)
  ValuesRead less_than lo hi = IsRead hi × (lo ≡ d.zero_value)
  ValuesRead less_equal lo hi = IsRead hi × (lo ≡ d.zero_value)

  abbrev pub ItemRead : ConstraintItem F → Type 0
  ItemRead i = (i.column_name ≢ []) × ValuesRead i.op i.value_min i.value_max

  pub record ConstraintRead (stmt : DefineConstraintStmt F) : Type 0 where
    pub named : stmt.constraint_name ≢ []
    pub inhabited : stmt.items ≢ []
    pub items_read : All ItemRead stmt.items

  number_after-Fine :
      {n : ℕ} {types : List Text} (message : Text)
      → Fine {A = F} n types (Value IsRead) (number_after message)
  unfolding number_after
  number_after-Fine message = bind advance-Fine λ tok seen. bind (match-Fine s_minus) λ neg _.
      bind (reject_if-Fine (not (is_number tok)) syntax_error message)
        λ _ e. scaled-Fine neg tok.lexeme (number-IsNumeral tok seen e)

  order_item-Fine :
      {n : ℕ} {types : List Text} (item : F → ConstraintItem F) (message : Text)
      → ((x : F) → IsRead x → ItemRead (item x))
      → Fine n types (Value ItemRead) (order_item item message)
  unfolding order_item
  order_item-Fine item message h =
      bind (number_after-Fine message) λ x read. pure-Fine ItemRead (item x) (h x read)

  between_item-Fine :
      {n : ℕ} {types : List Text} (name : Text)
      → name ≢ []
      → Fine n types (Value ItemRead) (between_item name)
  unfolding between_item
  between_item-Fine name ne =
      bind (signed_number-Fine (text "Expected number after BETWEEN")) λ lo read_lo.
        bind (expect-Fine k_and) λ _ _.
          bind (signed_number-Fine (text "Expected number after AND")) λ hi read_hi.
            pure-Fine ItemRead
              (record { column_name = name; op = between; value_min = lo; value_max = hi })
              (ne, (read_lo, read_hi))

  operator_item-Fine :
      {n : ℕ} {types : List Text} (name : Text)
      → name ≢ []
      → Fine n types (Value ItemRead) (operator_item name)
  unfolding operator_item
  operator_item-Fine name ne = bind (match-Fine k_between) λ is_between _.
      if-Fine is_between (λ _. between_item-Fine name ne)
        λ _. bind (match-Fine s_gt) λ gt _.
          if-Fine gt
            (λ _. order_item-Fine (item_above name greater_than) _ (λ x r. (ne, (r, refl))))
            λ _. bind (match-Fine s_lt) λ lt _.
              if-Fine lt
                (λ _. order_item-Fine (item_below name less_than) _ (λ x r. (ne, (r, refl))))
                λ _. bind (match-Fine s_ge) λ ge _.
                  if-Fine ge
                    (λ _.
                      order_item-Fine (item_above name greater_equal) _ (λ x r. (ne, (r, refl))))
                    λ _. bind (match-Fine s_le) λ le _.
                      if-Fine le
                        (λ _.
                          order_item-Fine (item_below name less_equal) _ (λ x r. (ne, (r, refl))))
                        λ _. reject-Fine _ _

  parse_constraint_item-Fine :
      {n : ℕ} {types : List Text} → Fine n types (Value ItemRead) parse_constraint_item
  unfolding parse_constraint_item
  parse_constraint_item-Fine =
      bind (require-Fine l_ident (text "Expected column name in constraint")) λ column token.
        operator_item-Fine column.lexeme (IsToken-ne-nil column.type_of column.lexeme token.0)

  abbrev pub ItemsRead : List (ConstraintItem F) → Type 0
  ItemsRead items = (items ≢ []) × All ItemRead items

  pub constraint_items-Fine :
      {types : List Text} (f n : ℕ) → n ≤ f → Fine n types (Value ItemsRead) (constraint_items f)
  unfolding constraint_items
  constraint_items-Fine zero n h = stuck-Fine h
  constraint_items-Fine {types} (suc f) n h = bind reject_unsupported-Fine λ _ _.
      bind parse_constraint_item-Fine λ item read. match-bind s_comma λ comma k le lt.
        if-Fine comma
          (λ e. bind reject_during_when-Fine λ _ _. bind (more_before-Fine s_rbrace) λ more _.
            if-Fine more
              (λ _.
                bind (constraint_items-Fine f k (omega (arith, h, lt e)))
                  λ rest reads. pure-Fine ItemsRead (item ∷ rest) (λ e. cc, (read, reads.1)))
              (λ _. pure-Fine ItemsRead (item ∷ []) (λ e. cc, (read, tt))))
          (λ _. pure-Fine ItemsRead (item ∷ []) (λ e. cc, (read, tt)))
