-- ===== src/Gc/Compact.antt =====
-- A whole run of `compact`.
use synthgen_core.Prelude.{◌^◌, ◌≤◌, ◌<◌, Text, text, false, ◌≡◌, ◌≢◌, List, ◌∷◌, All, length, ◌⊎◌}
use synthgen_core.Prelude.Sort.{sort_by}
use synthgen_core.Common.Result.{Result, ok}
use synthgen_core.Common.Double.{Double}
use synthgen_core.Version.{ModelVersion, ModelVersionChain, Reading, get_version}
use synthgen_core.Version.Invariant.{IsSound}
use synthgen_core.Version.Create.{created}
use synthgen_core.Version.Keeps.{Call}
use synthgen_core.Gc.{
  CompactionResult, GcCompactor, nothing_compacted, older, ids_of, recent_ids, compactable, explain,
  merged, compact_guarded,
}
use synthgen_core.Gc.Select.{IsFree}

module _ {F : Type 0} ⦃d : Double F⦄ (chain : ModelVersionChain F) (sound : IsSound chain)
    (room : chain.counter < 2 ^ 64) where
  -- The chain and the version after the merge of the versions from `earliest` on.
  abbrev merge_call : ModelVersion F → List (ModelVersion F) → Reading → Call F
  merge_call earliest rest now = record {
    model_name = earliest.model_name;
    parent = earliest.parent_version_id;
    metadata = merged earliest rest;
    now = now;
  }

  abbrev merge_result : ModelVersion F → List (ModelVersion F) → Reading → ModelVersion F
  merge_result earliest rest now =
      created chain sound room earliest.model_name earliest.parent_version_id (merged earliest rest)
        now

-- The merge of a compaction of the listed versions of a model: all that may be merged, from the oldest
-- on, are two or more, and become one version with a new id, for the model and the parent of the oldest.
pub record IsMerge {F : Type 0} ⦃d : Double F⦄ (gc : GcCompactor F)
    (versions : List (ModelVersion F)) (r : CompactionResult) (next : GcCompactor F) : Type 0 where
  pub earliest : ModelVersion F
  pub rest : List (ModelVersion F)
  pub chosen : compactable gc.checker gc.config (sort_by older versions) ≡ earliest ∷ rest
  pub several : 1 ≤ length rest
  pub compacted : r.compacted_versions ≡ ids_of (earliest ∷ rest)
  pub new_id : (v : ModelVersion F) → get_version gc.chain r.merged_version_id ≢ ok v
  pub version : ModelVersion F
  pub readable : get_version next.chain r.merged_version_id ≡ ok version
  pub own_id : version.version_id ≡ r.merged_version_id
  pub model_name : version.model_name ≡ earliest.model_name
  pub parent : version.parent_version_id ≡ earliest.parent_version_id
  pub created_by : version.created_by ≡ text "auto_compact"
  pub training_data_range : version.training_data_range ≡ earliest.training_data_range
  pub fidelity_score : version.fidelity_score ≡ (merged earliest rest).fidelity_score
  pub training_rows : version.training_rows ≡ (merged earliest rest).training_rows
  pub custom_metadata : version.custom_metadata ≡ (merged earliest rest).custom_metadata

-- What a compaction achieves on a chain: `r` is the answer and `next` the compactor after it.
pub record IsCompaction {F : Type 0} ⦃d : Double F⦄ (gc : GcCompactor F) (model_name : Text)
    (versions : List (ModelVersion F)) (r : CompactionResult) (next : GcCompactor F) : Type 0 where
  pub free :
      All (IsFree gc.checker (recent_ids gc.config (sort_by older versions))) r.compacted_versions
  pub counted :
      ((length r.compacted_versions ≡ (explain gc model_name).compactable_versions)
        × IsMerge gc versions r next)
      ⊎ (((explain gc model_name).compactable_versions < 2)
          × (r ≡ nothing_compacted)
          × (next.chain ≡ gc.chain))
  pub sound : IsSound next.chain
  pub kept :
      (id : Text) (v : ModelVersion F)
      → get_version gc.chain id ≡ ok v
      → get_version next.chain id ≡ ok v
  pub idle : next.in_progress ≡ false

module _ {F : Type 0} ⦃d : Double F⦄ (gc : GcCompactor F) (idle : gc.in_progress ≡ false)
    (sound : IsSound gc.chain) (room : gc.chain.counter < 2 ^ 64) where
  -- What the guarded part answers, and the chain it leaves.
  abbrev Outcome : Text → Reading → List (ModelVersion F) → Type 0
  Outcome model_name now listed =
      (r : CompactionResult) × (after : ModelVersionChain F) × (compact_guarded gc model_name now
        ≡ (ok r, after))
      × IsCompaction gc model_name listed r (record gc { chain = after; in_progress = false })

  abbrev FreeIn : List (ModelVersion F) → List (ModelVersion F) → Type 0
  FreeIn listed vs =
      All (IsFree gc.checker (recent_ids gc.config (sort_by older listed))) (ids_of vs)
