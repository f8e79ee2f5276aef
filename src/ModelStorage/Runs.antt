-- ===== src/ModelStorage/Runs.antt =====
-- The layers that the calls reach.
use synthgen_core.Prelude.{
  Text, true, ◌≡◌, sym, ◌∙◌, subst, none, some, arith, ◌⊎◌, inl, inr, All-map,
}
use synthgen_core.Common.Result.{ok}
use synthgen_core.Common.Files.{Files, FileLaws, IsName, is_plain}
use synthgen_core.Version.{ModelVersion}
use synthgen_core.ModelStorage.{
  CacheEntry, ModelStorageLayer, answered, cache_key, with_files, make_layer, save_checkpoint,
  load_model, atomic_write, recover_interrupted,
}
use synthgen_core.ModelStorage.Cache.{IsCache}
use synthgen_core.ModelStorage.Paths.{IsKey, names-IsKey}
use synthgen_core.ModelStorage.Disk.{stored, Fresh, IsSound}
use synthgen_core.ModelStorage.Writes.{WritesFully, atomic_write-Keeps, save_checkpoint-Keeps}
use synthgen_core.ModelStorage.Recovery.{recover_interrupted-IsSound}
use synthgen_core.ModelStorage.Loads.{load_model-Loads, load_model-remembered}

module _ {W : Type 0} ⦃fs : Files W⦄ (laws : FileLaws fs) where
  -- From one layer to the next: a call, of the two that write with a plain name of a model and a plain
  -- version id, or the removal of checkpoints by others.
  pub data Step (F : Type 0) : ModelStorageLayer W → ModelStorageLayer W → Type 0 where
    saves :
        (m v value : Text) (layer : ModelStorageLayer W)
        → IsName m
        → is_plain v ≡ true
        → WritesFully laws m v value layer
        → Step F layer (save_checkpoint m v value layer).1
    writes :
        (m value : Text) (version : ModelVersion F) (layer : ModelStorageLayer W)
        → IsName m
        → is_plain version.version_id ≡ true
        → Step F layer (atomic_write m value version layer).1
    loads : (m v : Text) (layer : ModelStorageLayer W) → Step F layer (load_model m v layer).1
    recovers : (layer : ModelStorageLayer W) → Step F layer (recover_interrupted layer).1
    removes :
        (w : W) (layer : ModelStorageLayer W)
        → ((key : Text)
            → IsKey key
            → (stored laws layer.root w key ≡ none)
              ⊎ (stored laws layer.root w key ≡ stored laws layer.root layer.files key))
        → Step F layer (with_files w layer)

  pub data Reached (F : Type 0) : ModelStorageLayer W → Type 0 where
    made : (root : Text) (w : W) → Reached F (make_layer root w)
    after :
        (layer next : ModelStorageLayer W) → Reached F layer → Step F layer next → Reached F next

  removed-Fresh :
      (root : Text) (w w' : W) (e : CacheEntry)
      → (IsKey e.0
          → (stored laws root w' e.0 ≡ none) ⊎ (stored laws root w' e.0 ≡ stored laws root w e.0))
      → Fresh laws root w e
      → Fresh laws root w' e
  removed-Fresh root w w' e gone fresh k = by_removal (gone k) (fresh k)
    where
      by_removal :
          (stored laws root w' e.0 ≡ none) ⊎ (stored laws root w' e.0 ≡ stored laws root w e.0)
          → (stored laws root w e.0 ≡ none) ⊎ (stored laws root w e.0 ≡ some e.1)
          → (stored laws root w' e.0 ≡ none) ⊎ (stored laws root w' e.0 ≡ some e.1)
      by_removal (inl gone) f = inl gone
      by_removal (inr same) (inl gone) = inl (same ∙ gone)
      by_removal (inr same) (inr here) = inr (same ∙ here)

  Step-IsSound :
      {F : Type 0} (layer next : ModelStorageLayer W)
      → Step F layer next
      → IsSound laws layer
      → IsSound laws next
  Step-IsSound _ _ (saves m v value layer named plain full) s =
      (save_checkpoint-Keeps laws m v value layer (names-IsKey m v named plain) full).sound s
  Step-IsSound _ _ (writes m value version layer named plain) s =
      (atomic_write-Keeps laws m value version layer
          (names-IsKey m version.version_id named plain)).sound
        s
  Step-IsSound _ _ (loads m v layer) s = (load_model-Loads laws layer m v s).sound
  Step-IsSound _ _ (recovers layer) s = recover_interrupted-IsSound laws layer s
  Step-IsSound _ _ (removes w layer gone) s = record {
    cache = s.cache;
    fresh =
        All-map (λ e f. removed-Fresh layer.root layer.files w e (gone e.0) f) layer.lru_list
          s.fresh;
  }

  pub Reached-IsSound :
      {F : Type 0} (layer : ModelStorageLayer W) → Reached F layer → IsSound laws layer
  unfolding make_layer
  Reached-IsSound _ (made root w) = record {
    cache = record { few = omega arith; apart = tt };
    fresh = tt;
  }
  Reached-IsSound _ (after layer next r s) = Step-IsSound layer next s (Reached-IsSound layer r)

  -- After any calls, of which save_checkpoint and atomic_write had plain names of models and plain
  -- version ids and no save_checkpoint stopped in the middle of its file, the cache has at most five
  -- entries, with keys that differ.
  pub Reached-IsCache :
      {F : Type 0} (layer : ModelStorageLayer W) → Reached F layer → IsCache layer.lru_list
  Reached-IsCache layer r = (Reached-IsSound layer r).cache

  -- What atomic_write writes, load_model gives back: after a call with a plain name of a model and a
  -- plain version id that succeeds, the layer loads the same data under the same name and version.
  pub load_model-atomic_write :
      {F : Type 0} (m value : Text) (version : ModelVersion F) (layer : ModelStorageLayer W)
      → IsName m
      → is_plain version.version_id ≡ true
      → (atomic_write m value version layer).0 ≡ ok tt
      → (load_model m version.version_id (atomic_write m value version layer).1).0
        ≡ answered (ok value)
  load_model-atomic_write m value version layer named plain done =
      let key = names-IsKey m version.version_id named plain in
      let k = atomic_write-Keeps laws m value version layer key in
      let after = (atomic_write m value version layer).1 in
      load_model-remembered laws after m version.version_id value key (k.remembered done) (
        subst (λ root. stored laws root after.files (cache_key m version.version_id) ≡ some value)
          (sym k.same_root) (k.written_there done))
