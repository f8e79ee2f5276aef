-- ===== src/ModelStorage/Disk.antt =====
-- What the calls of the layer do to the files and to the cache.
use synthgen_core.Prelude.{
  Text, ◌≡◌, ◌≢◌, refl, sym, ◌∙◌, Option, none, some, All, All-map, ◌⊎◌, inl, inr,
}
use synthgen_core.Common.Result.{Result, Error, ok, err}
use synthgen_core.Common.Files.{Files, FileLaws}
use synthgen_core.ModelStorage.{CacheEntry, ModelStorageLayer, cached, update_cache, with_files}
use synthgen_core.ModelStorage.Cache.{
  IsCache, All-cache_value, All-replaced, cached-cache_value, cache_value-IsCache,
}
use synthgen_core.ModelStorage.Paths.{key_path, IsKey}

module _ {W : Type 0} ⦃fs : Files W⦄ (laws : FileLaws fs) where
  -- The checkpoint that is on the disk under a key.
  abbrev pub stored : Text → W → Text → Option Text
  stored root w key = laws.content w (key_path root key)

  -- An entry of the cache whose key is one of plain names is what is on the disk, unless the file is
  -- gone.
  abbrev pub Fresh : Text → W → CacheEntry → Type 0
  Fresh root w e = IsKey e.0 → (stored root w e.0 ≡ none) ⊎ (stored root w e.0 ≡ some e.1)

  pub record IsSound (layer : ModelStorageLayer W) : Type 0 where
    pub cache : IsCache layer.lru_list
    pub fresh : All (Fresh layer.root layer.files) layer.lru_list

  -- Under the keys of plain names the disk has what it had.
  abbrev pub Same : Text → W → W → Type 0
  Same root w w' = (key : Text) → IsKey key → stored root w' key ≡ stored root w key

  moved_entry :
      {a b : Option Text} {value : Text}
      → b ≡ a
      → (a ≡ none) ⊎ (a ≡ some value)
      → (b ≡ none) ⊎ (b ≡ some value)
  moved_entry e (inl gone) = inl (e ∙ gone)
  moved_entry e (inr here) = inr (e ∙ here)

  Fresh-Same :
      (root : Text) (w w' : W)
      → Same root w w'
      → (e : CacheEntry) → Fresh root w e
      → Fresh root w' e
  Fresh-Same root w w' same e fresh k = moved_entry (same e.0 k) (fresh k)

  pub with_files-IsSound :
      (w : W) (layer : ModelStorageLayer W)
      → Same layer.root layer.files w
      → IsSound layer
      → IsSound (with_files w layer)
  with_files-IsSound w layer same s = record {
    cache = s.cache;
    fresh = All-map (Fresh-Same layer.root layer.files w same) layer.lru_list s.fresh;
  }

  pub update_cache-IsSound :
      (key value : Text) (layer : ModelStorageLayer W)
      → (IsKey key → stored layer.root layer.files key ≡ some value)
      → IsSound layer
      → IsSound (update_cache key value layer)
  unfolding update_cache
  update_cache-IsSound key value layer here s = record {
    cache = cache_value-IsCache key value layer.lru_list s.cache;
    fresh =
        All-cache_value (Fresh layer.root layer.files) key value layer.lru_list (λ k. inr (here k))
          s.fresh;
  }

  -- A file that was written under the key of an entry, with the entry put into the cache.
  replaced-IsSound :
      (key value : Text) (layer : ModelStorageLayer W) (w : W)
      → stored layer.root w key ≡ some value
      → ((other : Text)
          → IsKey other
          → other ≢ key
          → stored layer.root w other ≡ stored layer.root layer.files other)
      → IsSound layer
      → IsSound (update_cache key value (with_files w layer))
  unfolding update_cache
  replaced-IsSound key value layer w here kept s = record {
    cache = cache_value-IsCache key value layer.lru_list s.cache;
    fresh =
        All-replaced (Fresh layer.root w) key value layer.lru_list (λ _. inr here)
          (All-map (λ e f ne. moved e (λ eq. ne (sym eq)) f) layer.lru_list s.fresh) s.cache;
  }
    where
      moved : (e : CacheEntry) → e.0 ≢ key → Fresh layer.root layer.files e → Fresh layer.root w e
      moved e ne fresh k = moved_entry (kept e.0 k ne) (fresh k)

  -- What a call that writes a checkpoint did: on success it is on the disk, the others of plain names
  -- are as they were, and so are all of them on failure.
  abbrev pub Committed :
      ModelStorageLayer W → Text → Text → Result (Unit {0}) × ModelStorageLayer W → Type 0
  Committed layer key value (ok _, after) =
      (stored layer.root after.files key ≡ some value)
      × ((other : Text)
          → IsKey other
          → other ≢ key
          → stored layer.root after.files other ≡ stored layer.root layer.files other)
  Committed layer key value (err e, after) =
      (other : Text)
      → IsKey other
      → stored layer.root after.files other ≡ stored layer.root layer.files other

  -- A call that leaves the layer as it should be, and its root as it was.
  pub record Keeps (layer : ModelStorageLayer W) (key value : Text)
      (out : Result (Unit {0}) × ModelStorageLayer W) : Type 0 where
    pub committed : Committed layer key value out
    pub sound : IsSound layer → IsSound out.1
    pub same_root : out.1.root ≡ layer.root
    pub remembered : out.0 ≡ ok tt → cached key out.1.lru_list ≡ some value
    pub written_there : out.0 ≡ ok tt → stored layer.root out.1.files key ≡ some value

  pub Keeps-failed :
      (layer : ModelStorageLayer W) (key value : Text) (e : Error) (w : W)
      → Same layer.root layer.files w
      → Keeps layer key value (err e, with_files w layer)
  Keeps-failed layer key value e w same = record {
    committed = same;
    sound = with_files-IsSound w layer same;
    same_root = refl;
    remembered = λ done. absurd cc;
    written_there = λ done. absurd cc;
  }

  pub Keeps-done :
      (layer : ModelStorageLayer W) (key value : Text) (w : W)
      → stored layer.root w key ≡ some value
      → ((other : Text)
          → IsKey other
          → other ≢ key
          → stored layer.root w other ≡ stored layer.root layer.files other)
      → Keeps layer key value (ok tt, update_cache key value (with_files w layer))
  unfolding update_cache
  Keeps-done layer key value w here kept = record {
    committed = (here, kept);
    sound = λ s. unfold update_cache in replaced-IsSound key value layer w here kept s;
    same_root = refl;
    remembered = λ _. unfold update_cache in cached-cache_value key value layer.lru_list;
    written_there = λ _. unfold update_cache in here;
  }
