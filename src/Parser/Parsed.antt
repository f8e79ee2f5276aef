-- ===== src/Parser/Parsed.antt =====
-- What `parse` gives for a source text.
use synthgen_core.Prelude.{
  Text, Bool, true, false, ◌||◌, ◌≡◌, refl, ap, subst, Option, some, List, [], ◌∷◌, ◌++◌, All,
  All-map, ◌⊎◌, inl, inr, if_rule,
}
use synthgen_core.Common.Result.{ok}
use synthgen_core.Common.Types.{ColumnDef}
use synthgen_core.Common.Double.{Double}
use synthgen_core.Schema.{DefineTypeStmt, build}
use synthgen_core.Schema.Validate.{RangeFits, ColumnFits, build_iff}
use synthgen_core.Lexer.{Token, k_define, k_load, k_generate}
use synthgen_core.Parser.State.{
  Statement, define_type, load_data, define_constraint, generate_table, Parser, returned, failed,
  thrown, stuck, same_token_type, is_at_end,
}
use synthgen_core.Parser.Run.{ParseResult, skip_to_statement, skip_statement, Outcome, parse}
use synthgen_core.Parser.Typed.{ColumnRead, TypeDefined}
use synthgen_core.Parser.Ranges.{IsNumeral, IsRead, RangeRead, open_range, closed_range}
use synthgen_core.Parser.Progress.{StatementHolds}
use synthgen_core.Parser.Loop.{Ends, parse-Ends}

module _ {F : Type 0} ⦃d : Double F⦄ where
  -- A call that gave a result or an exception of the library.
  abbrev pub Finished : Outcome F → Type 0
  Finished (returned r, p) = Unit
  Finished (failed e, p) = ⊥
  Finished (thrown, p) = Unit
  Finished (stuck, p) = ⊥

  Ends-Finished : (out : Outcome F) → Ends [] out → Finished out
  Ends-Finished (returned r, p) ends = tt
  Ends-Finished (failed e, p) ends = ends.ended
  Ends-Finished (thrown, p) ends = tt
  Ends-Finished (stuck, p) ends = ends.ended

  -- `parse` finishes on every source text: it gives a result, or leaves by an exception of
  -- std::stod or std::stoll. No error of a statement leaves it, and the fuel of its loops is enough.
  pub parse-Finished :
      (source : Text) → (out : Outcome F) × (parse source ≡ some out) × Finished out
  parse-Finished source = let (out, e, ends) = parse-Ends source in (out, e, Ends-Finished out ends)

  -- Where `parse` gives a result, the type of every statement of it is one of those that the parser has
  -- defined by the end; the names of types that are defined or loaded into, of columns, of constraints
  -- and of tables are not empty; a definition of a type has columns, with
  -- different names, whose ranges are in order; a definition of a constraint has items; the ends of
  -- ranges and the values of items that their operators use are what std::stod reads of the lexeme of
  -- a number, or its opposite, and the other value of an item is zero; a statement that loads data has
  -- the path of a string token, without its quotes; the limit of a table is not negative. (The ends
  -- of BETWEEN are not known to be in order, and a keyword that is missing may be accepted.)
  pub parse-StatementHolds :
      (source : Text) (r : ParseResult F) (p : Parser)
      → parse source ≡ some (returned r, p)
      → All (λ s. StatementHolds s p) r.statements
  parse-StatementHolds source r p e =
      let (out, same, ends) = parse-Ends source in kept out same ends
    where
      kept :
          (out : Outcome F)
          → parse source ≡ some out
          → Ends [] out
          → All (λ s. StatementHolds s p) r.statements
      kept out same ends =
          let joined : out ≡ (returned r, p) = cc in
          let here : Ends [] (returned r, p) = subst (λ o. Ends [] o) joined ends in here.ended

  module _ (read_number : (s : Text) (x : F) → IsNumeral s → d.stod s ≡ some x → d.is_nan x ≡ false)
      (negate_number : (x : F) → d.is_nan x ≡ false → d.is_nan (d.negate x) ≡ false) where
    IsRead-number : (x : F) → IsRead x → d.is_nan x ≡ false
    IsRead-number x read = by_sign x read.magnitude read.lexeme read.numeral read.reads read.sign
      where
        by_sign :
            (x y : F) (s : Text)
            → IsNumeral s
            → d.stod s ≡ some y
            → (x ≡ y) ⊎ (x ≡ d.negate y)
            → d.is_nan x ≡ false
        by_sign x y s i e (inl same) = rw same (read_number s y i e)
        by_sign x y s i e (inr same) = rw same (negate_number y (read_number s y i e))

    RangeRead-fits : (lo hi : Option F) → RangeRead lo hi → RangeFits lo hi
    RangeRead-fits _ _ open_range = tt
    RangeRead-fits _ _ (closed_range lo hi read_lo read_hi below) =
        (IsRead-number lo read_lo, IsRead-number hi read_hi, below)

    ColumnRead-fits : (c : ColumnDef F) → ColumnRead c → ColumnFits c
    ColumnRead-fits c read = (read.0, RangeRead-fits c.range_min c.range_max read.1, read.2)

    -- The schema that `build` makes of a type definition.
    abbrev pub Builds : Statement F → Type 0
    Builds (define_type stmt) =
        build stmt ≡ ok (record { type_name = stmt.type_name; columns = stmt.columns })
    Builds (load_data stmt) = Unit
    Builds (define_constraint stmt) = Unit
    Builds (generate_table stmt) = Unit

    TypeDefined-Builds : (stmt : DefineTypeStmt F) → TypeDefined stmt → Builds (define_type stmt)
    TypeDefined-Builds stmt t =
        (build_iff stmt (record { type_name = stmt.type_name; columns = stmt.columns })).1 (
          refl,
          refl,
          record {
            named = t.named;
            inhabited = t.inhabited;
            columns_fit = All-map ColumnRead-fits stmt.columns t.columns_read;
            names_apart = t.names_apart;
          },
        )

    StatementHolds-Builds : (p : Parser) (s : Statement F) → StatementHolds s p → Builds s
    StatementHolds-Builds p (define_type stmt) h = TypeDefined-Builds stmt h.0
    StatementHolds-Builds p (load_data stmt) h = tt
    StatementHolds-Builds p (define_constraint stmt) h = tt
    StatementHolds-Builds p (generate_table stmt) h = tt

    -- Every type definition that `parse` gives builds a schema, with its name and its columns,
    -- where std::stod reads no NaN from the lexeme of a number and the opposite of a number is no NaN: the checks of the parser
    -- leave nothing for the checks of the schema to refuse.
    pub parse-Builds :
        (source : Text) (r : ParseResult F) (p : Parser)
        → parse source ≡ some (returned r, p)
        → All Builds r.statements
    parse-Builds source r p e =
        All-map (StatementHolds-Builds p) r.statements (parse-StatementHolds source r p e)

-- A token at which the search for the next statement stops.
abbrev pub begins_statement : Token → Bool
begins_statement t =
    same_token_type t.type_of k_define
    || (same_token_type t.type_of k_load || same_token_type t.type_of k_generate)

abbrev pub Stops : List Token → Type 0
Stops [] = Unit
Stops (t ∷ ts) = is_at_end (t ∷ ts) || begins_statement t ≡ true

-- The tokens that were skipped, with none among them that begins a statement or ends the source.
pub record Skips (tokens : List Token) (left : List Token) : Type 0 where
  pub skipped : List Token
  pub split : tokens ≡ skipped ++ left
  pub none_begins : All (λ t. is_at_end (t ∷ []) || begins_statement t ≡ false) skipped
  pub stops : Stops left

skip_to_statement-Skips :
    (previous : Token) (tokens : List Token) → Skips tokens (skip_to_statement previous tokens).1
unfolding skip_to_statement
skip_to_statement-Skips previous [] = record {
  skipped = [];
  split = refl;
  none_begins = tt;
  stops = tt;
}
skip_to_statement-Skips previous (t ∷ ts) =
    let rest = skip_to_statement-Skips t ts in
    if_rule (λ (out : Token × List Token). Skips (t ∷ ts) out.1)
      (is_at_end (t ∷ ts) || begins_statement t)
      (λ e. record { skipped = []; split = refl; none_begins = tt; stops = e })
      (λ e. record {
        skipped = t ∷ rest.skipped;
        split = ap (λ us. t ∷ us) rest.split;
        none_begins = (unfold is_at_end in e, rest.none_begins);
        stops = rest.stops;
      })

-- After a statement that has an error, the parser leaves out the tokens before the next DEFINE, LOAD
-- or GENERATE, or before the end of the source, and no others: no token that it leaves out is one of
-- these, and it stays at the first that is. The types defined so far stay defined.
pub skip_statement-Skips :
    (p : Parser)
    → Skips p.tokens (skip_statement p).tokens
      × ((skip_statement p).defined_types ≡ p.defined_types)
unfolding skip_statement
skip_statement-Skips p = (skip_to_statement-Skips p.previous p.tokens, refl)
