-- ===== src/TimeTravel.antt =====
-- storage/timetravel/ and storage/gc/compaction_bias_report.h: the query of a model's data as of a
-- version. The storage of the data is a parameter: a state and a call that loads a version.
mod Query
mod Stored
mod Examples
use synthgen_core.Prelude.{
  Text, text, text_eq, Bool, true, false, not, Option, none, some, List, [], ◌∷◌, ◌++◌,
  if◌then◌else◌,
}
use synthgen_core.Common.Result.{
  Result, Error, ok, err, fail, invalid_argument, no_available_version,
}
use synthgen_core.Common.Double.{Double}
use synthgen_core.Version.{ModelVersion, ModelVersionChain, get_version, list_versions}

pub record CompactionBiasReport (F : Type 0) : Type 0 where
  pub requested_version : Text
  pub returned_version : Text
  pub reason : Text
  pub merged_from : List Text
  pub training_data_range : Text
  pub fidelity_score_range_min : F
  pub fidelity_score_range_max : F
  pub version_mismatch : Bool

-- `payload` is the field `data`.
pub record TimeTravelResult (F : Type 0) : Type 0 where
  pub payload : Text
  pub version : ModelVersion F
  pub bias_report : Option (CompactionBiasReport F)
  pub was_degraded : Bool

-- The storage layer: `load_model` with the state of the storage.
pub record Storage (S : Type 0) : Type 0 where
  pub load_model : Text → Text → S → Result Text × S

module _ {F : Type 0} where
  -- The report of find_nearest_available, where the version `v` was loaded.
  unfoldable pub report_of : Text → ModelVersion F → CompactionBiasReport F
  report_of requested v = record {
    requested_version = requested;
    returned_version = v.version_id;
    reason = text "compacted";
    merged_from = v.version_id ∷ [];
    training_data_range = v.training_data_range;
    fidelity_score_range_min = v.fidelity_score;
    fidelity_score_range_max = v.fidelity_score;
    version_mismatch = not (text_eq v.version_id requested);
  }

module _ {F S : Type 0} (storage : Storage S) (chain : ModelVersionChain F)
    (model_name : Text) where
  -- The loop of find_nearest_available: the first version that loads.
  unfoldable pub first_loaded :
      Text → List (ModelVersion F) → S → Result (Text × CompactionBiasReport F) × S
  unfolding report_of
  first_loaded requested [] s = (
    fail no_available_version (text "no available version found for model: " ++ model_name)
        (text "TimeTravelEngine"),
    s,
  )
  first_loaded requested (v ∷ vs) s =
      let (answer, after) = storage.load_model model_name v.version_id s in
      let rest = first_loaded requested vs after in
      elim answer [ ok loaded ↦ (ok (loaded, report_of requested v), after) | err e ↦ rest ]

  -- The report is the one that the caller's argument holds after the call.
  unfoldable pub find_nearest_available : Text → S → Result (Text × CompactionBiasReport F) × S
  unfolding first_loaded
  find_nearest_available requested s = elim (list_versions chain model_name 100) [
    | err e ↦ (fail e.code e.message (text "TimeTravelEngine"), s)
    | ok all_versions ↦ first_loaded requested all_versions s
  ]

  -- What query_as_of returns for the result of find_nearest_available.
  unfoldable pub degraded :
      Result (Text × CompactionBiasReport F) × S → Result (TimeTravelResult F) × S
  degraded (err e, s) = (fail e.code e.message (text "TimeTravelEngine"), s)
  degraded (ok (loaded, report), s) = elim (get_version chain report.returned_version) [
    | err e ↦ (
      fail no_available_version (text "nearest version metadata not found in chain")
          (text "TimeTravelEngine"),
      s,
    )
    | ok v ↦ (
      ok (record { payload = loaded; version = v; bias_report = some report; was_degraded = true }),
      s,
    )
  ]

  -- Step 2 of query_as_of.
  unfoldable pub degradation_path : Text → S → Result (TimeTravelResult F) × S
  unfolding find_nearest_available degraded
  degradation_path version_id s = degraded (find_nearest_available version_id s)

  -- Step 1, where the version is in the chain.
  unfoldable pub exact_or_degraded :
      Text → ModelVersion F → Result Text × S → Result (TimeTravelResult F) × S
  unfolding degradation_path
  exact_or_degraded version_id v (err e, s) = degradation_path version_id s
  exact_or_degraded version_id v (ok loaded, s) =
      (ok (record { payload = loaded; version = v; bias_report = none; was_degraded = false }), s)

  -- Step 1, for what the chain says of the version.
  unfoldable pub after_lookup : Text → S → Result (ModelVersion F) → Result (TimeTravelResult F) × S
  unfolding exact_or_degraded
  after_lookup version_id s (err e) = degradation_path version_id s
  after_lookup version_id s (ok v) =
      exact_or_degraded version_id v (storage.load_model model_name version_id s)

  unfoldable pub query_as_of : Text → S → Result (TimeTravelResult F) × S
  unfolding after_lookup
  query_as_of version_id s =
      if text_eq model_name []
      then (
        fail invalid_argument (text "model_name must not be empty") (text "TimeTravelEngine"),
        s,
      )
      else if text_eq version_id []
      then (
        fail invalid_argument (text "version_id must not be empty") (text "TimeTravelEngine"),
        s,
      )
      else after_lookup version_id s (get_version chain version_id)
