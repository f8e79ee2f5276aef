-- ===== src/InterRow/Chain.antt =====
-- The rows that pass, each against the one before it.
use synthgen_core.Prelude.{
  ℕ, suc, ◌+◌, ◌≤◌, ◌<◌, true, ◌≡◌, Option, none, some, List, [], ◌∷◌, length, All, ◌⊎◌,
}
use synthgen_core.Prelude.Dict.{Dict}
use synthgen_core.Common.Result.{Result, ok, err}
use synthgen_core.Common.Double.{Double}
use synthgen_core.InterRow.{
  InterRowConstraintDef, InterRowState, InterRowResult, InterRowEngine, RowBatch, indexed,
  prev_values, validate_constraints, check_constraint, previous_value,
}

module _ {F : Type 0} ⦃d : Double F⦄ (distance : F → F → F) where
  module _ (batch : RowBatch F) (prev : Dict F) where
    -- Row `i` stands in the relation of the constraint to the value before it, if there is one.
    abbrev pub Related : ℕ → Option ℕ → InterRowConstraintDef F × ℕ → Type 0
    Related i last (c, idx) =
        (v : F)
        → previous_value distance batch prev c idx last ≡ some v
        → check_constraint distance c (batch.value idx i) v ≡ true

    -- Rows from `i` on and before `n`, in order, each of which stands in the relations of the
    -- constraints to the one before it.
    abbrev pub Chained : List (InterRowConstraintDef F × ℕ) → ℕ → ℕ → Option ℕ → List ℕ → Type 0
    Chained infos i n last [] = Unit {0}
    Chained infos i n last (j ∷ js) =
        (i ≤ j) × (j < n) × All (Related j last) infos × Chained infos (suc j) n (some j) js

  -- The result for a batch, by the constraints with their columns.
  pub record Filtered (batch : RowBatch F) (prev : Dict F)
      (infos : List (InterRowConstraintDef F × ℕ)) (r : InterRowResult F) : Type 0 where
    pub chained : Chained batch prev infos 0 batch.num_rows none r.filtered_batch
    pub passed : length r.filtered_batch ≡ r.rows_passed
    pub counted : r.rows_passed + r.rows_filtered ≡ batch.num_rows

  -- The result of a batch with rows: an error of the checks, or the rows that pass.
  abbrev pub Executes :
      InterRowEngine F → RowBatch F → List (InterRowState F) → Result (InterRowResult F) → Type 0
  Executes engine batch incoming (err e) =
      (validate_constraints engine ≡ err e) ⊎ (indexed engine.schema engine.constraints ≡ err e)
  Executes engine batch incoming (ok r) =
      (validate_constraints engine ≡ ok tt)
      × ((infos : List (InterRowConstraintDef F × ℕ)) × (indexed engine.schema engine.constraints
            ≡ ok infos)
          × Filtered batch (prev_values incoming []) infos r)
