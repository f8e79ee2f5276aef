-- ===== src/Router/Examples.antt =====
-- The theorems at a value range and a relation between rows.
use synthgen_core.Prelude.{ℕ, Text, text, true, ◌≡◌, ◌↔◌, none, [], ◌∷◌, ◌++◌, map, length, refl}
use synthgen_core.Common.Result.{ok}
use synthgen_core.Common.Types.{datetime}
use synthgen_core.Schema.{Schema}
use synthgen_core.Router.{
  ConstraintSet, RoutingDecision, phase_one_constraints, phase_two_constraints, of_value_range,
  of_inter_row, of_aggregate, identity_for_path, classified, classify, route, check_inter_row,
  check_aggregate, order_column,
}
use synthgen_core.Router.Classify.{IsClassifiable, classify_iff, classify-phases}
use synthgen_core.Router.Route.{path_for, route-classify}

abbrev constraints : ConstraintSet Text Text
constraints = record {
  value_range_names = text "power" ∷ [];
  inter_row_defs = text "energy" ∷ [];
  aggregate_defs = [];
}

abbrev sensor_log : Schema ℕ
sensor_log = record {
  type_name = text "sensor_log";
  columns =
      record {
        name = text "at";
        type = datetime;
        not_null = true;
        is_order = true;
        range_min = none;
        range_max = none;
        enum_values = [];
      }
      ∷ [];
}

abbrev name : Text → Text
name s = s

accepted : classify name name constraints sensor_log ≡ ok (classified name name constraints)
unfolding classify check_inter_row check_aggregate order_column
accepted = refl

classify_iff_example :
    (classify name name constraints sensor_log ≡ ok (classified name name constraints))
    ↔ IsClassifiable name name constraints sensor_log
classify_iff_example = classify_iff name name constraints sensor_log

classify-phases_example :
    (phase_one_constraints (classified name name constraints)
      ≡ map (of_value_range name name) (text "power" ∷ [])
        ++ map (of_inter_row name name) (text "energy" ∷ []))
    × (phase_two_constraints (classified name name constraints) ≡ map (of_aggregate name name) [])
classify-phases_example =
    classify-phases name name constraints sensor_log (classified name name constraints) accepted

route-classify_example :
    (decision : RoutingDecision ℕ) × (route length true (classified name name constraints)
      ≡ ok decision)
    × (decision.selected_path ≡ path_for true 1 0)
    × (decision.identity.path ≡ decision.selected_path)
    × (decision.identity.identity ≡ identity_for_path decision.selected_path)
route-classify_example =
    route-classify name name length constraints sensor_log true (classified name name constraints)
      accepted
