-- ===== src/Router/Route.antt =====
-- The paths that `route` chooses for what `classify` accepts.
use synthgen_core.Prelude.{
  ℕ, ◌+◌, ◌<◌, Text, Bool, ◌&&◌, ◌≡◌, refl, length, ltb, if◌then◌else◌, arith, subst, sym, ap, ◌∙◌,
}
use synthgen_core.Common.Result.{ok}
use synthgen_core.Schema.{Schema}
use synthgen_core.Router.{
  ConstraintSet, ClassificationResult, DegradationPath, RoutingDecision, full_function, post_filter,
  pure_physics, identity_for_path, choose, decision_for, classified, classify, route,
}
use synthgen_core.Router.Classify.{classify-eq-ok, classify_iff}

-- The path by the rules that can be reached.
abbrev pub path_for : Bool → ℕ → ℕ → DegradationPath
path_for engine rows windows =
    if engine && ltb 0 windows
    then full_function
    else if engine && ltb 0 rows
    then post_filter
    else pure_physics

choose-path_for :
    (engine : Bool) (c : ClassificationResult)
    → 0 < c.value_range_count + c.inter_row_count + c.aggregate_count
    → (choose engine c).0 ≡ path_for engine c.inter_row_count c.aggregate_count
unfolding choose
choose-path_for engine c h = ground (arith, h)

module _ {InterRow Aggregate F : Type 0} (column_name : InterRow → Text)
    (aggregate_name : Aggregate → Text) (literal : Text → F) where
  -- Of a set of constraints that `classify` accepts, `route` chooses the full function if there is a
  -- data engine and an aggregate, the filter afterwards if there is a data engine and a relation
  -- between rows but no aggregate, and physics alone otherwise: statistical generation and KDE
  -- perturbation are never chosen. The identity declares the path that was chosen.
  pub route-classify :
      (constraints : ConstraintSet InterRow Aggregate) (schema : Schema F) (engine : Bool)
      (c : ClassificationResult)
      → classify column_name aggregate_name constraints schema ≡ ok c
      → (decision : RoutingDecision F) × (route literal engine c ≡ ok decision)
        × (decision.selected_path
            ≡ path_for engine
                (length constraints.inter_row_defs)
                (length constraints.aggregate_defs))
        × (decision.identity.path ≡ decision.selected_path)
        × (decision.identity.identity ≡ identity_for_path decision.selected_path)
  unfolding route decision_for classified
  route-classify constraints schema engine c e =
      let whole = classified column_name aggregate_name constraints in
      let same = classify-eq-ok column_name aggregate_name constraints schema c e in
      let accepted =
        (classify_iff column_name aggregate_name constraints schema).0 (e ∙ ap ok (sym same)) in
      (
        decision_for literal engine c,
        refl,
        subst Chooses same (choose-path_for engine whole accepted.some_constraint),
        refl,
        refl,
      )
    where
      Chooses : ClassificationResult → Type 0
      Chooses r =
          (choose engine r).0
          ≡ path_for engine (length constraints.inter_row_defs) (length constraints.aggregate_defs)
