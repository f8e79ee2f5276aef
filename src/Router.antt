-- ===== src/Router.antt =====
-- engine/router/: the classification of a set of constraints, and the choice of the path that
-- generates the rows. The definitions of the constraint engines are parameters: only their names are
-- read. `literal` is the double that a literal of the source denotes.
mod Classify
mod Route
mod Examples
use synthgen_core.Prelude.{
  ℕ, ◌+◌, Text, text, Bool, true, false, not, ◌&&◌, Option, none, some, List, [], ◌∷◌, ◌++◌, map,
  filter, length, ltb, ◌==◌, if◌then◌else◌,
}
use synthgen_core.Common.Result.{
  Result, ok, fail, ◌>>◌, invalid_argument, order_column_required, type_mismatch,
}
use synthgen_core.Common.Types.{ColumnDef, datetime, same_type}
use synthgen_core.Schema.{Schema}

pub data ConstraintType : Type 0 where
  value_range inter_row aggregate : ConstraintType

pub data ExecutionPhase : Type 0 where
  phase_one phase_two : ExecutionPhase

pub data ExecutionMode : Type 0 where
  row_by_row stateful_batch two_phase : ExecutionMode

pub record ConstraintClassification : Type 0 where
  pub constraint_name : Text
  pub type : ConstraintType
  pub phase : ExecutionPhase

pub record ClassificationResult : Type 0 where
  pub classifications : List ConstraintClassification
  pub execution_mode : ExecutionMode
  pub value_range_count : ℕ
  pub inter_row_count : ℕ
  pub aggregate_count : ℕ

abbrev pub is_phase_one : ConstraintClassification → Bool
is_phase_one c = elim c.phase [ phase_one ↦ true | phase_two ↦ false ]

unfoldable pub phase_one_constraints : ClassificationResult → List ConstraintClassification
phase_one_constraints r = filter is_phase_one r.classifications

unfoldable pub phase_two_constraints : ClassificationResult → List ConstraintClassification
phase_two_constraints r = filter (λ c. not (is_phase_one c)) r.classifications

-- `InterRow` and `Aggregate` stand for the definitions of the constraint engines.
pub record ConstraintSet (InterRow Aggregate : Type 0) : Type 0 where
  pub value_range_names : List Text
  pub inter_row_defs : List InterRow
  pub aggregate_defs : List Aggregate

unfoldable pub derive_execution_mode : ℕ → ℕ → ℕ → ExecutionMode
derive_execution_mode value_range_count inter_row_count aggregate_count =
    if ltb 0 aggregate_count
    then two_phase
    else if ltb 0 inter_row_count
    then stateful_batch
    else row_by_row

module _ {F : Type 0} where
  -- The first column that is marked ORDER.
  unfoldable pub order_column : List (ColumnDef F) → Option (ColumnDef F)
  order_column [] = none
  order_column (col ∷ cols) =
      let rest = order_column cols in if col.is_order then some col else rest

  unfoldable pub check_inter_row : ℕ → Schema F → Result (Unit {0})
  unfolding order_column
  check_inter_row ir_count schema =
      if ltb 0 ir_count
      then elim (order_column schema.columns) [
        | none ↦
            fail order_column_required (text "Inter-row constraints require an ORDER column")
              (text "classifier")
        | some col ↦ ok tt
      ]
      else ok tt

  unfoldable pub check_aggregate : ℕ → Schema F → Result (Unit {0})
  unfolding order_column
  check_aggregate agg_count schema =
      if ltb 0 agg_count
      then elim (order_column schema.columns) [
        | none ↦
            fail order_column_required (text "Aggregate constraints require an ORDER column")
              (text "classifier")
        | some col ↦
            if not (same_type col.type datetime)
            then fail type_mismatch
                (text "Aggregate constraints require ORDER column of DATETIME type")
                (text "classifier")
            else ok tt
      ]
      else ok tt

module _ {InterRow Aggregate : Type 0} (column_name : InterRow → Text)
    (aggregate_name : Aggregate → Text) where
  abbrev pub of_value_range : Text → ConstraintClassification
  of_value_range name = record { constraint_name = name; type = value_range; phase = phase_one }

  abbrev pub of_inter_row : InterRow → ConstraintClassification
  of_inter_row def = record {
    constraint_name = column_name def ++ text "_inter_row";
    type = inter_row;
    phase = phase_one;
  }

  abbrev pub of_aggregate : Aggregate → ConstraintClassification
  of_aggregate def = record {
    constraint_name = aggregate_name def;
    type = aggregate;
    phase = phase_two;
  }

  -- What `classify` returns once its tests are passed.
  unfoldable pub classified : ConstraintSet InterRow Aggregate → ClassificationResult
  unfolding derive_execution_mode
  classified constraints =
      let vr_count = length constraints.value_range_names in
      let ir_count = length constraints.inter_row_defs in
      let agg_count = length constraints.aggregate_defs in
      record {
        classifications =
            map of_value_range constraints.value_range_names
            ++ (map of_inter_row constraints.inter_row_defs
                ++ map of_aggregate constraints.aggregate_defs);
        execution_mode = derive_execution_mode vr_count ir_count agg_count;
        value_range_count = vr_count;
        inter_row_count = ir_count;
        aggregate_count = agg_count;
      }

  unfoldable pub classify :
      {F : Type 0} → ConstraintSet InterRow Aggregate → Schema F → Result ClassificationResult
  unfolding check_inter_row check_aggregate classified
  classify constraints schema =
      let vr_count = length constraints.value_range_names in
      let ir_count = length constraints.inter_row_defs in
      let agg_count = length constraints.aggregate_defs in
      if vr_count + ir_count + agg_count == 0
      then fail invalid_argument (text "Empty constraint set") (text "classifier")
      else (do
        check_inter_row ir_count schema
        check_aggregate agg_count schema
        ok (classified constraints))

pub data DegradationPath : Type 0 where
  full_function post_filter pure_physics statistical_generation kde_perturbation : DegradationPath

pub record IdentityDeclaration : Type 0 where
  pub identity : Text
  pub justification : Text
  pub path : DegradationPath

pub record VolumeRatioInfo (F : Type 0) : Type 0 where
  pub constraint_volume : F
  pub data_distribution_volume : F
  pub ratio : F
  pub estimated : Bool

pub record RoutingDecision (F : Type 0) : Type 0 where
  pub selected_path : DegradationPath
  pub identity : IdentityDeclaration
  pub classification : ClassificationResult
  pub volume_ratio : VolumeRatioInfo F
  pub estimated_exclusion_rate : F
  pub data_engine_available : Bool
  pub decision_reason : Text

unfoldable pub identity_for_path : DegradationPath → Text
identity_for_path full_function = text "constraint_driven_synthetic"
identity_for_path post_filter = text "post_filter_synthetic"
identity_for_path pure_physics = text "physics_sampler"
identity_for_path statistical_generation = text "statistical_generator"
identity_for_path kde_perturbation = text "kde_perturbation_generator"

-- The path, its reason and its exclusion rate, as a literal.
unfoldable pub choose : Bool → ClassificationResult → DegradationPath × Text × Text
choose engine c =
    let has_constraints = ltb 0 (c.value_range_count + c.inter_row_count + c.aggregate_count) in
    if has_constraints && (engine && ltb 0 c.aggregate_count)
    then (full_function, text "Constraints complete with data engine", text "0.1")
    else if has_constraints && (engine && ltb 0 c.inter_row_count)
    then (post_filter, text "Inter-row constraints with post-filtering", text "0.3")
    else if ltb 0 c.value_range_count && (c.inter_row_count == 0 && c.aggregate_count == 0)
    then (pure_physics, text "Value-range only constraints, pure physics path", text "0.0")
    else if engine && not has_constraints
    then (
      statistical_generation,
      text "No constraints, statistical generation with data engine",
      text "0.0",
    )
    else if engine
    then (kde_perturbation, text "KDE perturbation with data engine", text "0.5")
    else (pure_physics, text "No data engine available, defaulting to pure physics", text "0.0")

module _ {F : Type 0} (literal : Text → F) where
  -- What `route` returns; `engine` is data_engine_available_.
  unfoldable pub decision_for : Bool → ClassificationResult → RoutingDecision F
  unfolding choose identity_for_path
  decision_for engine c =
      let (path, reason, rate) = choose engine c in
      record {
        selected_path = path;
        identity = record {
          identity = identity_for_path path;
          justification = reason;
          path = path;
        };
        classification = c;
        volume_ratio = record {
          constraint_volume = literal (text "0.0");
          data_distribution_volume = literal (text "0.0");
          ratio = literal (text "1.0");
          estimated = true;
        };
        estimated_exclusion_rate = literal rate;
        data_engine_available = engine;
        decision_reason = reason;
      }

  unfoldable pub route : Bool → ClassificationResult → Result (RoutingDecision F)
  unfolding decision_for
  route engine c = ok (decision_for engine c)
