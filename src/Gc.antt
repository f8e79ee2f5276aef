-- ===== src/Gc.antt =====
-- storage/gc/: the protection of versions, and the compaction of a model's old versions into one.
mod Protection
mod Select
mod Merge
mod Compact
mod Examples
use synthgen_core.Prelude.{
  ℕ, zero, suc, ◌+◌, ◌-◌, ◌≤◌, Text, text, text_eq, text_mem, Bool, true, false, not, ◌&&◌, ◌||◌,
  Option, none, some, List, [], ◌∷◌, ◌++◌, map, length, drop, filter, ltb, if◌then◌else◌,
}
use synthgen_core.Prelude.Dict.{Dict, find, insert}
use synthgen_core.Prelude.Int.{ℤ, pos, negsuc, ◌+ℤ◌}
use synthgen_core.Prelude.Sort.{sort_by}
use synthgen_core.Common.Result.{
  Result, Error, ok, err, fail, compaction_in_progress, compaction_failed, auto_compact_disabled,
}
use synthgen_core.Common.Double.{Double}
use synthgen_core.Version.{ModelVersion, ModelVersionChain, Reading, create_version, list_versions}

-- protection.h; `keep_recent_n` is an `int` and may be negative
pub record ProtectionConfig : Type 0 where
  pub keep_recent_n : ℤ
  pub auto_compact_enabled : Bool

pub record ProtectionChecker : Type 0 where
  pub snapshot_refs : List Text
  pub anchored : List Text

unfoldable pub is_snapshot_referenced : ProtectionChecker → Text → Bool
is_snapshot_referenced c id = text_mem id c.snapshot_refs

unfoldable pub is_anchored : ProtectionChecker → Text → Bool
is_anchored c id = text_mem id c.anchored

unfoldable pub is_protected : ProtectionChecker → Text → Bool
unfolding is_snapshot_referenced is_anchored
is_protected c id = is_snapshot_referenced c id || is_anchored c id

unfoldable pub is_within_n_versions : Text → List Text → Bool
is_within_n_versions id recent = text_mem id recent

-- `insert` and `erase` of an `unordered_set`
unfoldable pub set_insert : Text → List Text → List Text
set_insert id ids = if text_mem id ids then ids else id ∷ ids

unfoldable pub set_erase : Text → List Text → List Text
set_erase id ids = filter (λ i. not (text_eq i id)) ids

unfoldable pub add_snapshot_ref : Text → ProtectionChecker → ProtectionChecker
unfolding set_insert
add_snapshot_ref id c = record c { snapshot_refs = set_insert id c.snapshot_refs }

unfoldable pub remove_snapshot_ref : Text → ProtectionChecker → ProtectionChecker
unfolding set_erase
remove_snapshot_ref id c = record c { snapshot_refs = set_erase id c.snapshot_refs }

unfoldable pub anchor : Text → ProtectionChecker → ProtectionChecker
unfolding set_insert
anchor id c = record c { anchored = set_insert id c.anchored }

unfoldable pub unanchor : Text → ProtectionChecker → ProtectionChecker
unfolding set_erase
unanchor id c = record c { anchored = set_erase id c.anchored }

pub record CompactionResult : Type 0 where
  pub compacted_versions : List Text
  pub merged_version_id : Text

abbrev pub nothing_compacted : CompactionResult
nothing_compacted = record { compacted_versions = []; merged_version_id = [] }

pub record GcExplainInfo : Type 0 where
  pub total_versions : ℕ
  pub protected_versions : ℕ
  pub compactable_versions : ℕ

-- The compactor with the chain and the checker that it holds by reference.
pub record GcCompactor (F : Type 0) : Type 0 where
  pub chain : ModelVersionChain F
  pub checker : ProtectionChecker
  pub config : ProtectionConfig
  pub in_progress : Bool

-- std::max(0, size - keep_recent_n)
unfoldable pub recent_start : ℕ → ℤ → ℕ
recent_start size (pos n) = size - n
recent_start size (negsuc n) = size + suc n

-- merged_metadata[k] = val for each entry of `m`
unfoldable pub merge_metadata : Dict Text → Dict Text → Dict Text
merge_metadata merged [] = merged
merge_metadata merged ((k, val) ∷ m) = merge_metadata (insert k val merged) m

module _ {F : Type 0} where
  -- a.created_at < b.created_at
  abbrev pub older : ModelVersion F → ModelVersion F → Bool
  older a b = ltb a.created_at b.created_at

  abbrev pub ids_of : List (ModelVersion F) → List Text
  ids_of = map (λ v. v.version_id)

  -- the ids from `recent_start` to the end
  unfoldable pub recent_ids : ProtectionConfig → List (ModelVersion F) → List Text
  unfolding recent_start
  recent_ids config versions =
      ids_of (drop (recent_start (length versions) config.keep_recent_n) versions)

  -- none of the three reasons to skip a version
  unfoldable pub is_compactable : ProtectionChecker → List Text → ModelVersion F → Bool
  is_compactable checker recent v =
      not (is_snapshot_referenced checker v.version_id)
      && (not (is_anchored checker v.version_id) && not (is_within_n_versions v.version_id recent))

  -- steps 5 and 6 of `compact`, over the versions from the oldest on
  unfoldable pub compactable :
      ProtectionChecker → ProtectionConfig → List (ModelVersion F) → List (ModelVersion F)
  unfolding recent_ids is_compactable
  compactable checker config versions =
      filter (is_compactable checker (recent_ids config versions)) versions

  -- the counts of `explain`; its test for protection is the negation of that of `compact`
  unfoldable pub is_kept : ProtectionChecker → List Text → ModelVersion F → Bool
  is_kept checker recent v =
      is_snapshot_referenced checker v.version_id
      || (is_anchored checker v.version_id || is_within_n_versions v.version_id recent)

  unfoldable pub count_kept : ProtectionChecker → List Text → List (ModelVersion F) → ℕ × ℕ → ℕ × ℕ
  unfolding is_kept
  count_kept checker recent [] counts = counts
  count_kept checker recent (v ∷ vs) (kept, free) =
      count_kept checker recent vs
        (if is_kept checker recent v then (suc kept, free) else (kept, suc free))

  unfoldable pub explain : GcCompactor F → Text → GcExplainInfo
  unfolding count_kept
  explain gc model_name = elim (list_versions gc.chain model_name 100000) [
    | err e ↦ record { total_versions = 0; protected_versions = 0; compactable_versions = 0 }
    | ok listed ↦
        let versions = sort_by older listed in
        let (kept, free) = count_kept gc.checker (recent_ids gc.config versions) versions (0, 0) in
        record {
          total_versions = length listed;
          protected_versions = kept;
          compactable_versions = free;
        }
  ]

  unfoldable pub auto_compact_check : GcCompactor F → Result (Unit {0})
  auto_compact_check gc =
      if not gc.config.auto_compact_enabled
      then fail auto_compact_disabled (text "auto compaction is disabled in config") (text "gc")
      else ok tt

module _ {F : Type 0} ⦃d : Double F⦄ where
  -- std::min
  abbrev pub min_double : F → F → F
  min_double a b = if d.lt b a then b else a

  unfoldable pub min_fidelity : F → List (ModelVersion F) → F
  min_fidelity m [] = m
  min_fidelity m (v ∷ vs) = min_fidelity (min_double m v.fidelity_score) vs

  unfoldable pub total_rows : ℤ → List (ModelVersion F) → ℤ
  total_rows n [] = n
  total_rows n (v ∷ vs) = total_rows (n +ℤ v.training_rows) vs

  unfoldable pub merged_metadata : Dict Text → List (ModelVersion F) → Dict Text
  merged_metadata m [] = m
  merged_metadata m (v ∷ vs) = merged_metadata (merge_metadata m v.custom_metadata) vs

  -- the metadata that `merge_versions` builds from the versions, the earliest first
  unfoldable pub merged : ModelVersion F → List (ModelVersion F) → ModelVersion F
  unfolding min_fidelity total_rows merged_metadata
  merged earliest rest = record {
    version_id = [];
    model_name = [];
    parent_version_id = [];
    created_at = 0;
    created_by = text "auto_compact";
    is_immutable = true;
    training_data_range = earliest.training_data_range;
    fidelity_score = min_fidelity earliest.fidelity_score (earliest ∷ rest);
    training_rows = total_rows (pos 0) (earliest ∷ rest);
    custom_metadata = merged_metadata [] (earliest ∷ rest);
  }

  unfoldable pub merge_versions :
      List (ModelVersion F)
      → Reading
      → ModelVersionChain F
      → Result (ModelVersion F) × ModelVersionChain F
  unfolding merged
  merge_versions [] now chain =
      (fail compaction_failed (text "cannot merge empty version list") (text "gc"), chain)
  merge_versions (earliest ∷ rest) now chain =
      let (result, after) =
        create_version earliest.model_name earliest.parent_version_id (merged earliest rest) now
          chain in
      elim result [
        | ok v ↦ (ok v, after)
        | err e ↦
            (fail e.code (text "failed to create merged version: " ++ e.message) (text "gc"), after)
      ]

  -- step 9 of `compact`, or its return of the error of step 8
  abbrev pub finish :
      List (ModelVersion F)
      → Result (ModelVersion F) × ModelVersionChain F
      → Result CompactionResult × ModelVersionChain F
  finish chosen (err e, after) = (fail e.code e.message (text "gc"), after)
  finish chosen (ok v, after) =
      (ok (record { compacted_versions = ids_of chosen; merged_version_id = v.version_id }), after)

  -- steps 7 to 9 of `compact`
  unfoldable pub compact_chosen :
      List (ModelVersion F)
      → Reading
      → ModelVersionChain F
      → Result CompactionResult × ModelVersionChain F
  compact_chosen chosen now chain =
      if ltb (length chosen) 2
      then (ok nothing_compacted, chain)
      else finish chosen (merge_versions chosen now chain)

  -- steps 3 to 9 of `compact`: what runs while the flag is set
  unfoldable pub compact_guarded :
      GcCompactor F → Text → Reading → Result CompactionResult × ModelVersionChain F
  compact_guarded gc model_name now = elim (list_versions gc.chain model_name 100000) [
    | err e ↦ (fail e.code e.message (text "gc"), gc.chain)
    | ok listed ↦
        compact_chosen (compactable gc.checker gc.config (sort_by older listed)) now gc.chain
  ]

  -- The guard resets the flag on every return but the first.
  unfoldable pub compact : GcCompactor F → Text → Reading → Result CompactionResult × GcCompactor F
  compact gc model_name now =
      let (result, after) = compact_guarded gc model_name now in
      if gc.in_progress
      then (
        fail compaction_in_progress (text "compaction already in progress for this compactor")
            (text "gc"),
        gc,
      )
      else (result, record gc { chain = after; in_progress = false })
