-- ===== src/Router/Classify.antt =====
-- When `classify` accepts a set of constraints, and what it says of them.
use synthgen_core.Prelude.{
  All, ℕ, ◌+◌, ◌<◌, Text, Bool, true, false, not, ◌≡◌, refl, ap, ◌∙◌, Option, none, some, List, [],
  ◌∷◌, ◌++◌, map, filter, length, ◌==◌, ◌↔◌, arith, append-nil, if_rule, subst,
}
use synthgen_core.Common.Result.{Result, ok, err, ◌>>◌}
use synthgen_core.Common.Types.{ColumnDef, datetime, same_type}
use synthgen_core.Schema.{Schema}
use synthgen_core.Router.{
  ConstraintSet, ClassificationResult, is_phase_one, phase_one_constraints, phase_two_constraints,
  order_column, check_inter_row, check_aggregate, of_value_range, of_inter_row, of_aggregate,
  classified, classify,
}

module _ {F : Type 0} where
  -- One of the columns is marked ORDER, none before it is, and it is as `p` says.
  pub record FirstOrder (p : ColumnDef F → Bool) (columns : List (ColumnDef F)) : Type 0 where
    pub before : List (ColumnDef F)
    pub column : ColumnDef F
    pub after : List (ColumnDef F)
    pub split : columns ≡ before ++ column ∷ after
    pub unmarked : All (λ c. c.is_order ≡ false) before
    pub marked : column.is_order ≡ true
    pub holds : p column ≡ true

  abbrev pub is_datetime : ColumnDef F → Bool
  is_datetime col = same_type col.type datetime

  -- What the search for the column finds.
  abbrev Passes : (ColumnDef F → Bool) → Option (ColumnDef F) → Type 0
  Passes p none = ⊥
  Passes p (some col) = p col ≡ true

  FirstOrder-head :
      (p : ColumnDef F → Bool) (c : ColumnDef F) (cs : List (ColumnDef F))
      → c.is_order ≡ true
      → FirstOrder p (c ∷ cs)
      → p c ≡ true
  FirstOrder-head p c cs marked f = by_before f.before f.split f.unmarked
    where
      by_before :
          (before : List (ColumnDef F))
          → c ∷ cs ≡ before ++ f.column ∷ f.after
          → All (λ c. c.is_order ≡ false) before
          → p c ≡ true
      by_before [] e h = let same : c ≡ f.column = cc in ap p same ∙ f.holds
      by_before (b ∷ before) e h = let same : c ≡ b = cc in let other = h.0 in absurd cc

  FirstOrder-tail :
      (p : ColumnDef F → Bool) (c : ColumnDef F) (cs : List (ColumnDef F))
      → c.is_order ≡ false
      → FirstOrder p (c ∷ cs)
      → FirstOrder p cs
  FirstOrder-tail p c cs plain f = by_before f.before f.split f.unmarked
    where
      by_before :
          (before : List (ColumnDef F))
          → c ∷ cs ≡ before ++ f.column ∷ f.after
          → All (λ c. c.is_order ≡ false) before
          → FirstOrder p cs
      by_before [] e h = let same : c ≡ f.column = cc in let marked = f.marked in absurd cc
      by_before (b ∷ before) e h = record {
        before = before;
        column = f.column;
        after = f.after;
        split = cc;
        unmarked = h.1;
        marked = f.marked;
        holds = f.holds;
      }

  FirstOrder-empty : (p : ColumnDef F → Bool) → FirstOrder p [] → ⊥
  FirstOrder-empty p f = by_before f.before f.split
    where
      by_before : (before : List (ColumnDef F)) → [] ≡ before ++ f.column ∷ f.after → ⊥
      by_before [] e = absurd cc
      by_before (b ∷ before) e = absurd cc

  -- The search finds the first column that is marked.
  order_column-FirstOrder :
      (p : ColumnDef F → Bool) (columns : List (ColumnDef F))
      → Passes p (order_column columns) ↔ FirstOrder p columns
  unfolding order_column
  order_column-FirstOrder p [] = (λ e. absurd e, FirstOrder-empty p)
  order_column-FirstOrder p (c ∷ cs) =
      if_rule (λ (o : Option (ColumnDef F)). Passes p o ↔ FirstOrder p (c ∷ cs)) c.is_order
        (λ marked. (
          λ h. record {
            before = [];
            column = c;
            after = cs;
            split = refl;
            unmarked = tt;
            marked = marked;
            holds = h;
          },
          FirstOrder-head p c cs marked,
        ))
        (λ plain.
          let rest = order_column-FirstOrder p cs in
          (
            λ h.
                let f = rest.0 h in
                record {
                  before = c ∷ f.before;
                  column = f.column;
                  after = f.after;
                  split = ap (λ (t : List (ColumnDef F)). c ∷ t) f.split;
                  unmarked = (plain, f.unmarked);
                  marked = f.marked;
                  holds = f.holds;
                },
            λ f. rest.1 (FirstOrder-tail p c cs plain f),
          ))

  check_inter_row_iff :
      (n : ℕ) (s : Schema F)
      → (check_inter_row n s ≡ ok tt) ↔ (0 < n → FirstOrder (λ c. true) s.columns)
  unfolding check_inter_row
  check_inter_row_iff n s =
      let found = order_column-FirstOrder (λ c. true) s.columns in
      let passes : (check_inter_row n s ≡ ok tt)
          ↔ (0 < n → Passes (λ c. true) (order_column s.columns)) =
        ground arith in
      (λ e more. found.0 (passes.0 e more), λ h. passes.1 (λ more. found.1 (h more)))

  check_aggregate_iff :
      (n : ℕ) (s : Schema F)
      → (check_aggregate n s ≡ ok tt) ↔ (0 < n → FirstOrder is_datetime s.columns)
  unfolding check_aggregate
  check_aggregate_iff n s =
      let found = order_column-FirstOrder is_datetime s.columns in
      let passes : (check_aggregate n s ≡ ok tt)
          ↔ (0 < n → Passes is_datetime (order_column s.columns)) =
        ground arith in
      (λ e more. found.0 (passes.0 e more), λ h. passes.1 (λ more. found.1 (h more)))

then_iff :
    {A : Type 0} (a b : Result (Unit {0})) (c : A)
    → ((a >> (b >> ok c)) ≡ ok c) ↔ ((a ≡ ok tt) × (b ≡ ok tt))
then_iff (ok _) (ok _) c = (λ e. (refl, refl), λ h. refl)
then_iff (ok _) (err e) c = (λ f. absurd cc, λ h. absurd cc)
then_iff (err e) b c = (λ f. absurd cc, λ h. absurd cc)

then_value : {A : Type 0} (a b : Result (Unit {0})) (c r : A) → (a >> (b >> ok c)) ≡ ok r → c ≡ r
then_value (ok _) (ok _) c r e = cc
then_value (ok _) (err f) c r e = absurd cc
then_value (err f) b c r e = absurd cc

filter-append :
    {A : Type 0} (p : A → Bool) (xs ys : List A) → filter p (xs ++ ys) ≡ filter p xs ++ filter p ys
filter-append p [] ys = refl
filter-append p (x ∷ xs) ys = ground (arith, filter-append p xs ys)

filter-map-true :
    {A B : Type 0} (p : B → Bool) (f : A → B) (xs : List A)
    → ((x : A) → p (f x) ≡ true)
    → filter p (map f xs) ≡ map f xs
filter-map-true p f [] h = refl
filter-map-true p f (x ∷ xs) h = rw (h x, filter-map-true p f xs h) refl

filter-map-false :
    {A B : Type 0} (p : B → Bool) (f : A → B) (xs : List A)
    → ((x : A) → p (f x) ≡ false)
    → filter p (map f xs) ≡ []
filter-map-false p f [] h = refl
filter-map-false p f (x ∷ xs) h = rw (h x, filter-map-false p f xs h) refl

-- Three lists one after the other, of which it is known what the filter leaves.
filter-three :
    {A : Type 0} (p : A → Bool) (xs ys zs : List A) {us vs ws : List A}
    → filter p xs ≡ us
    → filter p ys ≡ vs
    → filter p zs ≡ ws
    → filter p (xs ++ (ys ++ zs)) ≡ us ++ (vs ++ ws)
filter-three p xs ys zs a b c =
    rw (filter-append p xs (ys ++ zs), filter-append p ys zs, a, b, c) refl

module _ {InterRow Aggregate F : Type 0} (column_name : InterRow → Text)
    (aggregate_name : Aggregate → Text) (constraints : ConstraintSet InterRow Aggregate)
    (schema : Schema F) where
  -- What `classify` asks of the constraints and the columns.
  pub record IsClassifiable : Type 0 where
    pub some_constraint :
        0
        < length constraints.value_range_names
          + length constraints.inter_row_defs
          + length constraints.aggregate_defs
    pub ordered : 0 < length constraints.inter_row_defs → FirstOrder (λ c. true) schema.columns
    pub timed : 0 < length constraints.aggregate_defs → FirstOrder is_datetime schema.columns

  abbrev Accepts : Result ClassificationResult → Type 0
  Accepts out = (out ≡ ok (classified column_name aggregate_name constraints)) ↔ IsClassifiable

  abbrev Gives : ClassificationResult → Result ClassificationResult → Type 0
  Gives r out = out ≡ ok r → classified column_name aggregate_name constraints ≡ r

  -- `classify` accepts a set of constraints exactly if there is one at all, there is an ORDER column
  -- where a constraint relates rows, and the first ORDER column is a DATETIME where a constraint
  -- aggregates.
  pub classify_iff :
      (classify column_name aggregate_name constraints schema
        ≡ ok (classified column_name aggregate_name constraints))
      ↔ IsClassifiable
  unfolding classify
  classify_iff =
      let ir_count = length constraints.inter_row_defs in
      let agg_count = length constraints.aggregate_defs in
      let total = length constraints.value_range_names + ir_count + agg_count in
      let both =
        then_iff (check_inter_row ir_count schema) (check_aggregate agg_count schema)
          (classified column_name aggregate_name constraints) in
      if_rule Accepts (total == 0)
        (λ zero. (λ e. absurd cc, λ h. absurd (ground (arith, zero, h.some_constraint))))
        (λ more. (
          λ e.
              let (rows, times) = both.0 e in
              record {
                some_constraint = ground (arith, more);
                ordered = (check_inter_row_iff ir_count schema).0 rows;
                timed = (check_aggregate_iff agg_count schema).0 times;
              },
          λ h. both.1 (
            (check_inter_row_iff ir_count schema).1 h.ordered,
            (check_aggregate_iff agg_count schema).1 h.timed,
          ),
        ))

  pub classify-eq-ok :
      (r : ClassificationResult)
      → classify column_name aggregate_name constraints schema ≡ ok r
      → classified column_name aggregate_name constraints ≡ r
  unfolding classify
  classify-eq-ok r =
      let ir_count = length constraints.inter_row_defs in
      let agg_count = length constraints.aggregate_defs in
      if_rule (Gives r) (length constraints.value_range_names + ir_count + agg_count == 0)
        (λ zero e. absurd cc)
        (λ more.
          then_value (check_inter_row ir_count schema) (check_aggregate agg_count schema)
            (classified column_name aggregate_name constraints) r)

  abbrev Phases : ClassificationResult → Type 0
  Phases r =
      (phase_one_constraints r
        ≡ map (of_value_range column_name aggregate_name) constraints.value_range_names
          ++ map (of_inter_row column_name aggregate_name) constraints.inter_row_defs)
      × (phase_two_constraints r
          ≡ map (of_aggregate column_name aggregate_name) constraints.aggregate_defs)

  -- What `classify` accepts, it divides without loss: the value ranges and the relations between
  -- rows, in their order, are for the first phase, and the aggregates for the second.
  pub classify-phases :
      (r : ClassificationResult)
      → classify column_name aggregate_name constraints schema ≡ ok r
      → (phase_one_constraints r
          ≡ map (of_value_range column_name aggregate_name) constraints.value_range_names
            ++ map (of_inter_row column_name aggregate_name) constraints.inter_row_defs)
        × (phase_two_constraints r
            ≡ map (of_aggregate column_name aggregate_name) constraints.aggregate_defs)
  unfolding phase_one_constraints phase_two_constraints classified
  classify-phases r e =
      let same = classify-eq-ok r e in
      let vr = map (of_value_range column_name aggregate_name) constraints.value_range_names in
      let ir = map (of_inter_row column_name aggregate_name) constraints.inter_row_defs in
      let agg = map (of_aggregate column_name aggregate_name) constraints.aggregate_defs in
      let names = constraints.value_range_names in
      let rows = constraints.inter_row_defs in
      let windows = constraints.aggregate_defs in
      let f = of_value_range column_name aggregate_name in
      let g = of_inter_row column_name aggregate_name in
      let h = of_aggregate column_name aggregate_name in
      subst Phases same (
        filter-three is_phase_one vr ir agg (filter-map-true is_phase_one f names (λ x. refl))
              (filter-map-true is_phase_one g rows (λ x. refl))
              (filter-map-false is_phase_one h windows (λ x. refl))
            ∙ ap (λ l. vr ++ l) (append-nil ir),
        filter-three (λ c. not (is_phase_one c)) vr ir agg
            (filter-map-false (λ c. not (is_phase_one c)) f names (λ x. refl))
            (filter-map-false (λ c. not (is_phase_one c)) g rows (λ x. refl))
            (filter-map-true (λ c. not (is_phase_one c)) h windows (λ x. refl)),
      )
