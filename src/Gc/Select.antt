-- ===== src/Gc/Select.antt =====
-- What `compact` selects, and what `explain` counts.
use synthgen_core.Prelude.{
  ℕ, suc, ◌+◌, Text, text_mem, false, not, ◌≡◌, List, [], ◌∷◌, arith, All, filter, length,
  if◌then◌else◌, Bool-cases, inl, inr, ltb, Option-cases, take,
}
use synthgen_core.Prelude.Dict.{find}
use synthgen_core.Prelude.Sort.{sort_by}
use synthgen_core.Common.Result.{ok}
use synthgen_core.Version.{ModelVersion, ModelVersionChain, list_versions, lookup_all, newer}
use synthgen_core.Gc.{
  ProtectionChecker, ProtectionConfig, is_protected, is_within_n_versions, ids_of, recent_ids,
  is_compactable, compactable, is_kept, count_kept,
}

-- Neither referenced by a snapshot, nor anchored, nor among the recent ids.
abbrev pub IsFree : ProtectionChecker → List Text → Text → Type 0
IsFree checker recent id = (is_protected checker id ≡ false) × (text_mem id recent ≡ false)

module _ {F : Type 0} (checker : ProtectionChecker) where
  filter-IsFree :
      (recent : List Text) (vs : List (ModelVersion F))
      → All (IsFree checker recent) (ids_of (filter (is_compactable checker recent) vs))
  unfolding is_compactable is_protected is_within_n_versions
  filter-IsFree recent [] = tt
  filter-IsFree recent (v ∷ vs) = ground (arith, filter-IsFree recent vs)

  pub compactable-IsFree :
      (config : ProtectionConfig) (vs : List (ModelVersion F))
      → All (IsFree checker (recent_ids config vs)) (ids_of (compactable checker config vs))
  unfolding compactable
  compactable-IsFree config vs = filter-IsFree (recent_ids config vs) vs

  is_compactable-is_kept :
      (recent : List Text) (v : ModelVersion F)
      → is_compactable checker recent v ≡ not (is_kept checker recent v)
  unfolding is_compactable is_kept
  is_compactable-is_kept recent v = ground arith

  -- `explain` counts as compactable what `compact` selects.
  pub count_kept-filter :
      (recent : List Text) (vs : List (ModelVersion F)) (kept free : ℕ)
      → let counts = count_kept checker recent vs (kept, free) in
        (counts.1 ≡ free + length (filter (is_compactable checker recent) vs))
        × (counts.0 + counts.1 ≡ kept + free + length vs)
  unfolding count_kept
  count_kept-filter recent [] kept free = (omega arith, omega arith)
  count_kept-filter recent (v ∷ vs) kept free = elim (Bool-cases (is_kept checker recent v)) [
    | inl e ↦
        rw (count_kept, is_compactable-is_kept recent v, e)
          (let (a, b) = count_kept-filter recent vs (suc kept) free in
            (omega (arith, a), omega (arith, b)))
    | inr e ↦
        rw (count_kept, is_compactable-is_kept recent v, e)
          (let (a, b) = count_kept-filter recent vs kept (suc free) in
            (omega (arith, a), omega (arith, b)))
  ]

module _ {F : Type 0} where
  pub list_versions-ok :
      (chain : ModelVersionChain F) (model_name : Text) (limit : ℕ)
      → (vs : List (ModelVersion F)) × (list_versions chain model_name limit ≡ ok vs)
  unfolding list_versions
  list_versions-ok chain model_name limit =
      elim (Option-cases (find model_name chain.model_versions)) [
        | inl e ↦ ([], rw (e, list_versions))
        | inr (ids, e) ↦
            let result = sort_by newer (lookup_all chain.versions ids) in
            (if ltb limit (length result) then take limit result else result, rw (e, list_versions))
      ]
