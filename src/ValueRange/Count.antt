-- ===== src/ValueRange/Count.antt =====
-- The counters and the failures of a batch, against the list of the cells that fail.
use synthgen_core.Prelude.{
  ℕ, zero, suc, take-nil, text, Bool, true, false, ◌≡◌, ◌≢◌, refl, sym, ap, ◌∙◌, Option, none, some,
  List, [], ◌∷◌, ◌++◌, length, take, ltb, ◌==◌, append_assoc, append-nil, length-append,
  if◌then◌else◌, if_rule, arith, subst,
}
use synthgen_core.Prelude.Int.{sub_ℕ}
use synthgen_core.Common.Result.{Result, ok, err, fail, FailsWith, undefined_column}
use synthgen_core.Common.Double.{Double}
use synthgen_core.ValueRange.{
  ValidationFailure, ValidationResult, ColumnValidationRule, Cells, double_cells, int64_cells,
  other_cells, Batch, Conversions, Found, fails, failure_at, note, check_chunk, check_chunks,
  check_column, check_rules, validated, validate_batch,
}

-- One more entry, if there is room for it.
take-snoc {ℓ} :
    {A : Type ℓ} (n : ℕ) (xs : List A) (y : A)
    → (if ltb (length (take n xs)) n then take n xs ++ y ∷ [] else take n xs)
      ≡ take n (xs ++ y ∷ [])
take-snoc zero xs y = refl
take-snoc {A} (suc n) [] y = let nil : take {A = A} n [] ≡ [] = take-nil n in ground (arith, nil)
take-snoc (suc n) (x ∷ xs) y = ground (arith, take-snoc n xs y)

module _ {F : Type 0} ⦃d : Double F⦄ where
  -- The cells of a chunk, of a column and of the columns of the rules that fail, in their order.
  abbrev pub failing_chunk :
      {A : Type 0}
      → (A → F)
      → ColumnValidationRule F
      → ℕ
      → List (Option A)
      → List (ValidationFailure F)
  failing_chunk read rule r [] = []
  failing_chunk read rule r (none ∷ cells) = failing_chunk read rule (suc r) cells
  failing_chunk read rule r (some x ∷ cells) =
      (if fails rule (read x) then failure_at rule r (read x) ∷ [] else [])
      ++ failing_chunk read rule (suc r) cells

  abbrev pub failing_chunks :
      {A : Type 0}
      → (A → F)
      → ColumnValidationRule F
      → List (List (Option A))
      → List (ValidationFailure F)
  failing_chunks read rule [] = []
  failing_chunks read rule (chunk ∷ chunks) =
      failing_chunk read rule 0 chunk ++ failing_chunks read rule chunks

  -- What the loops have found, once they have met these failures.
  abbrev pub found_of : List (ValidationFailure F) → Found F
  found_of failures = (length failures, take 100 failures)

  note-found_of :
      (rule : ColumnValidationRule F) (r : ℕ) (x : F) (before : List (ValidationFailure F))
      → note rule r x (found_of before)
        ≡ found_of (before ++ (if fails rule x then failure_at rule r x ∷ [] else []))
  unfolding note
  note-found_of rule r x before = by_test (fails rule x)
    where
      failure : ValidationFailure F
      failure = failure_at rule r x

      by_test :
          (b : Bool)
          → (if b
              then (
                suc (length before),
                if ltb (length (take 100 before)) 100
                    then take 100 before ++ failure ∷ []
                    else take 100 before,
              )
              else (length before, take 100 before))
            ≡ found_of (before ++ (if b then failure ∷ [] else []))
      by_test true =
          ap (λ (fs : List (ValidationFailure F)). (suc (length before), fs))
            (take-snoc 100 before failure)
          ∙ ap (λ (n : ℕ). (n, take 100 (before ++ failure ∷ [])))
              (omega (arith, length-append before (failure ∷ [])))
      by_test false = ap found_of (sym (append-nil before))

  check_chunk-found_of :
      {A : Type 0} (read : A → F) (rule : ColumnValidationRule F) (r : ℕ) (cells : List (Option A))
      (before : List (ValidationFailure F))
      → check_chunk read rule r cells (found_of before)
        ≡ found_of (before ++ failing_chunk read rule r cells)
  unfolding check_chunk
  check_chunk-found_of read rule r [] before = ap found_of (sym (append-nil before))
  check_chunk-found_of read rule r (none ∷ cells) before =
      check_chunk-found_of read rule (suc r) cells before
  check_chunk-found_of read rule r (some x ∷ cells) before =
      let new = if fails rule (read x) then failure_at rule r (read x) ∷ [] else [] in
      ap (check_chunk read rule (suc r) cells) (note-found_of rule r (read x) before)
      ∙ check_chunk-found_of read rule (suc r) cells (before ++ new)
      ∙ ap found_of (append_assoc before new (failing_chunk read rule (suc r) cells))

  check_chunks-found_of :
      {A : Type 0} (read : A → F) (rule : ColumnValidationRule F) (chunks : List (List (Option A)))
      (before : List (ValidationFailure F))
      → check_chunks read rule chunks (found_of before)
        ≡ found_of (before ++ failing_chunks read rule chunks)
  unfolding check_chunks
  check_chunks-found_of read rule [] before = ap found_of (sym (append-nil before))
  check_chunks-found_of read rule (chunk ∷ chunks) before =
      let new = failing_chunk read rule 0 chunk in
      ap (check_chunks read rule chunks) (check_chunk-found_of read rule 0 chunk before)
      ∙ check_chunks-found_of read rule chunks (before ++ new)
      ∙ ap found_of (append_assoc before new (failing_chunks read rule chunks))

  module _ (conv : Conversions F) where
    abbrev pub failing_column : ColumnValidationRule F → Cells F → List (ValidationFailure F)
    failing_column rule (double_cells chunks) = failing_chunks (λ x. x) rule chunks
    failing_column rule (int64_cells chunks) = failing_chunks conv.of_int rule chunks
    failing_column rule other_cells = []

    -- The failures of the rules, up to the first one of which the column is missing.
    abbrev pub failing :
        List (ColumnValidationRule F) → Batch F → Option (List (ValidationFailure F))
    failing [] batch = some []
    failing (rule ∷ rules) batch = elim (batch.column rule.column_name) [
      | none ↦ none
      | some cells ↦ elim (failing rules batch) [
        | none ↦ none
        | some rest ↦ some (failing_column rule cells ++ rest)
      ]
    ]

    check_column-found_of :
        (rule : ColumnValidationRule F) (cells : Cells F) (before : List (ValidationFailure F))
        → check_column conv rule cells (found_of before)
          ≡ found_of (before ++ failing_column rule cells)
    unfolding check_column
    check_column-found_of rule (double_cells chunks) before =
        check_chunks-found_of (λ x. x) rule chunks before
    check_column-found_of rule (int64_cells chunks) before =
        check_chunks-found_of conv.of_int rule chunks before
    check_column-found_of rule other_cells before = ap found_of (sym (append-nil before))

    -- What the loop over the rules gives.
    abbrev Collects :
        List (ValidationFailure F) → Option (List (ValidationFailure F)) → Result (Found F) → Type 0
    Collects before none out = FailsWith undefined_column out
    Collects before (some all) out = out ≡ ok (found_of (before ++ all))

    Collects-cons :
        (before new : List (ValidationFailure F)) (rest : Option (List (ValidationFailure F)))
        (out : Result (Found F))
        → Collects (before ++ new) rest out
        → Collects before (elim rest [ none ↦ none | some all ↦ some (new ++ all) ]) out
    Collects-cons before new none out h = h
    Collects-cons before new (some all) out h =
        h ∙ ap (λ fs. ok (found_of fs)) (append_assoc before new all)

    check_rules-Collects :
        (rules : List (ColumnValidationRule F)) (batch : Batch F)
        (before : List (ValidationFailure F))
        → Collects before (failing rules batch) (check_rules conv rules batch (found_of before))
    unfolding check_rules
    check_rules-Collects [] batch before = ap (λ fs. ok (found_of fs)) (sym (append-nil before))
    check_rules-Collects (rule ∷ rules) batch before =
        by_column (batch.column rule.column_name) (check_rules-Collects rules batch)
      where
        by_column :
            (o : Option (Cells F))
            → ((seen : List (ValidationFailure F))
                → Collects seen
                    (failing rules batch)
                    (check_rules conv rules batch (found_of seen)))
            → Collects before
                (elim o [
                  | none ↦ none
                  | some cells ↦ elim (failing rules batch) [
                    | none ↦ none
                    | some rest ↦ some (failing_column rule cells ++ rest)
                  ]
                ])
                (elim o [
                  | none ↦
                      fail undefined_column
                        (text "Column not found in batch: " ++ rule.column_name)
                        (text "validator")
                  | some cells ↦
                      check_rules conv rules batch (check_column conv rule cells (found_of before))
                ])
        by_column none rest = refl
        by_column (some cells) rest =
            Collects-cons before (failing_column rule cells) (failing rules batch) _ (
              subst
                (λ f.
                  Collects (before ++ failing_column rule cells) (failing rules batch)
                    (check_rules conv rules batch f))
                (sym (check_column-found_of rule cells before))
                (rest (before ++ failing_column rule cells)))

    -- The result for a batch with rows, by the failures of the rules.
    abbrev pub Reports :
        Batch F → Option (List (ValidationFailure F)) → Result (ValidationResult F) → Type 0
    Reports batch none out = FailsWith undefined_column out
    Reports batch (some all) out =
        out
        ≡ ok (record {
          rows_checked = batch.num_rows;
          rows_passed = sub_ℕ batch.num_rows (length all);
          rows_failed = length all;
          pass_rate = conv.ratio (sub_ℕ batch.num_rows (length all)) batch.num_rows;
          failures = take 100 all;
        })

    validated-Reports :
        (batch : Batch F) (all : Option (List (ValidationFailure F))) (out : Result (Found F))
        → Collects [] all out
        → Reports batch all (validated conv batch.num_rows out)
    unfolding validated
    validated-Reports batch none (err e) h = h
    validated-Reports batch none (ok f) h = absurd h
    validated-Reports batch (some all) out h = ap (validated conv batch.num_rows) h

    -- A batch with rows is checked cell by cell: if every rule has its column, the result counts the
    -- cells that fail, over all the rules and chunks, and lists the first hundred of them in the order
    -- of the rules, the chunks and the rows; the rows that pass are the rows less that count. If a
    -- column is missing, the call fails with an undefined column.
    pub validate_batch-Reports :
        (rules : List (ColumnValidationRule F)) (batch : Batch F)
        → batch.num_rows ≢ 0
        → Reports batch (failing rules batch) (validate_batch conv rules (some batch))
    unfolding validate_batch
    validate_batch-Reports rules batch rows =
        if_rule (Reports batch (failing rules batch)) (batch.num_rows == 0)
          (λ e. absurd (rows (ground (arith, e))))
          (λ _.
            validated-Reports batch (failing rules batch) (check_rules conv rules batch (0, []))
              (check_rules-Collects rules batch []))
