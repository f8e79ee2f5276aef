-- ===== src/ModelStorage/Loads.antt =====
-- load_model.
use synthgen_core.Prelude.{
  Text, true, false, not, ◌≡◌, ◌≢◌, refl, sym, ap, ◌∙◌, subst, Option, none, some, arith, ◌⊎◌, inl,
  inr, if_rule,
}
use synthgen_core.Common.Result.{ok, err, version_not_found, read_failed}
use synthgen_core.Common.Files.{Files, FileLaws, ReadResult, loaded, no_size, not_read, IsFileOf}
use synthgen_core.ModelStorage.{
  ModelStorageLayer, LoadAnswer, answered, threw, checkpoint_path, cache_key, with_list, cached,
  erase, update_cache, read_in, load_file, load_cached, load_model,
}
use synthgen_core.ModelStorage.Cache.{All-erase, All-cached, erase-IsCache, front-IsCache}
use synthgen_core.ModelStorage.Paths.{
  models_dir, key_path, IsKey, key_path-IsFileOf, checkpoint_path-cache_key,
}
use synthgen_core.ModelStorage.Disk.{stored, Fresh, IsSound, update_cache-IsSound}

module _ {W : Type 0} ⦃fs : Files W⦄ (laws : FileLaws fs) where
  -- The answer is what is on the disk; a checkpoint is not found where it is not there, and the only
  -- other error is that the file cannot be read. The call does not throw.
  abbrev pub Answers : ModelStorageLayer W → Text → LoadAnswer → Type 0
  Answers layer key threw = ⊥
  Answers layer key (answered (ok value)) = stored laws layer.root layer.files key ≡ some value
  Answers layer key (answered (err e)) =
      ((e.code ≡ version_not_found) × (stored laws layer.root layer.files key ≡ none))
      ⊎ (e.code ≡ read_failed)

  -- What is at the path of a checkpoint, if anything, is a regular file.
  abbrev pub IsClear : ModelStorageLayer W → Text → Type 0
  IsClear layer key =
      fs.exists (key_path layer.root key) layer.files ≡ true
      → stored laws layer.root layer.files key ≢ none

  -- A call that answers from a layer, and leaves the layer as it should be and the disk as it was.
  pub record Loads (layer : ModelStorageLayer W) (key : Text)
      (out : LoadAnswer × ModelStorageLayer W) : Type 0 where
    pub answers : IsKey key → IsClear layer key → Answers layer key out.0
    pub sound : IsSound laws out.1
    pub same_files : out.1.files ≡ layer.files
    pub same_root : out.1.root ≡ layer.root

  read_in-Loads :
      (layer : ModelStorageLayer W) (key : Text) (r : ReadResult)
      → ((value : Text)
          → r ≡ loaded value
          → IsKey key
          → stored laws layer.root layer.files key ≡ some value)
      → (r ≡ no_size → IsKey key → ¬ IsClear layer key)
      → IsSound laws layer
      → Loads layer key (read_in key r layer)
  unfolding read_in update_cache
  read_in-Loads layer key ReadResult.not_opened found absent s = record {
    answers = λ _ _. inr refl;
    sound = s;
    same_files = refl;
    same_root = refl;
  }
  read_in-Loads layer key no_size found absent s = record {
    answers = λ k clear. absurd (absent refl k clear);
    sound = s;
    same_files = refl;
    same_root = refl;
  }
  read_in-Loads layer key not_read found absent s = record {
    answers = λ _ _. inr refl;
    sound = s;
    same_files = refl;
    same_root = refl;
  }
  read_in-Loads layer key (loaded value) found absent s = record {
    answers = λ k _. found value refl k;
    sound = unfold update_cache in update_cache-IsSound laws key value layer (found value refl) s;
    same_files = refl;
    same_root = refl;
  }

  absent : (p : Text) (w : W) → fs.exists p w ≡ false → laws.content w p ≡ none
  absent p w e = by_content (laws.content w p) refl
    where
      by_content : (o : Option Text) → laws.content w p ≡ o → laws.content w p ≡ none
      by_content none same = same
      by_content (some v) same = let there = laws.content_exists p v w same in absurd cc

  -- On a miss, with the path of the key.
  load_at-Loads :
      (layer : ModelStorageLayer W) (m v path : Text)
      → checkpoint_path layer m v ≡ path
      → (IsKey (cache_key m v) → path ≡ key_path layer.root (cache_key m v))
      → IsSound laws layer
      → Loads layer (cache_key m v) (load_file m v layer)
  unfolding load_file
  load_at-Loads layer m v path e same s = rw e (
      if_rule (Loads layer (cache_key m v)) (not (fs.exists path layer.files))
        (λ gone. record {
          answers = λ k _. inl (
            refl,
            subst (λ q. laws.content layer.files q ≡ none) (same k)
                (absent path layer.files (ground (arith, gone))),
          );
          sound = s;
          same_files = refl;
          same_root = refl;
        })
        (λ here.
          read_in-Loads layer (cache_key m v) (fs.read path layer.files)
            (λ value read k.
              let file =
                subst (IsFileOf (models_dir layer.root)) (sym (same k))
                  (key_path-IsFileOf layer.root (cache_key m v) k) in
              subst (λ q. laws.content layer.files q ≡ some value) (same k)
                (laws.read_content (models_dir layer.root) path layer.files value file read))
            (λ unsized k clear.
              let file =
                subst (IsFileOf (models_dir layer.root)) (sym (same k))
                  (key_path-IsFileOf layer.root (cache_key m v) k) in
              clear (subst (λ q. fs.exists q layer.files ≡ true) (same k) (ground (arith, here))) (
                subst (λ q. laws.content layer.files q ≡ none) (same k)
                  (laws.no_size_content (models_dir layer.root) path layer.files file unsized)))
            s))

  load_file-Loads :
      (layer : ModelStorageLayer W) (m v : Text)
      → IsSound laws layer
      → Loads layer (cache_key m v) (load_file m v layer)
  load_file-Loads layer m v s =
      load_at-Loads layer m v (checkpoint_path layer m v) refl (checkpoint_path-cache_key layer m v)
        s

  -- On a hit: the entry is what is on the disk, where a regular file is there.
  hit :
      (layer : ModelStorageLayer W) (m v value : Text)
      → Fresh laws layer.root layer.files (cache_key m v, value)
      → fs.exists (checkpoint_path layer m v) layer.files ≡ true
      → IsKey (cache_key m v)
      → IsClear layer (cache_key m v)
      → stored laws layer.root layer.files (cache_key m v) ≡ some value
  hit layer m v value fresh here k clear = by_fresh (fresh k)
    where
      there : fs.exists (key_path layer.root (cache_key m v)) layer.files ≡ true
      there =
          subst (λ q. fs.exists q layer.files ≡ true) (checkpoint_path-cache_key layer m v k) here

      by_fresh :
          (stored laws layer.root layer.files (cache_key m v) ≡ none)
            ⊎ (stored laws layer.root layer.files (cache_key m v) ≡ some value)
          → stored laws layer.root layer.files (cache_key m v) ≡ some value
      by_fresh (inl gone) = absurd (clear there gone)
      by_fresh (inr same) = same

  load_cached-Loads :
      (layer : ModelStorageLayer W) (m v : Text) (o : Option Text)
      → cached (cache_key m v) layer.lru_list ≡ o
      → IsSound laws layer
      → Loads layer (cache_key m v) (load_cached m v o layer)
  unfolding load_cached
  load_cached-Loads layer m v none e s = load_file-Loads layer m v s
  load_cached-Loads layer m v (some value) e s =
      let key = cache_key m v in
      let P = Fresh laws layer.root layer.files in
      let kept = All-erase P key layer.lru_list s.fresh in
      if_rule (Loads layer key) (fs.exists (checkpoint_path layer m v) layer.files)
        (λ here.
          let fresh = All-cached P key value layer.lru_list e s.fresh in
          record {
            answers = hit layer m v value fresh here;
            sound = record {
              cache = front-IsCache key value value layer.lru_list e s.cache;
              fresh = (fresh, kept);
            };
            same_files = refl;
            same_root = refl;
          })
        (λ _.
          let l =
            load_file-Loads (with_list (erase key layer.lru_list) layer) m v
              (record { cache = erase-IsCache key layer.lru_list s.cache; fresh = kept }) in
          record {
            answers = l.answers;
            sound = l.sound;
            same_files = l.same_files;
            same_root = l.same_root;
          })

  pub load_model-Loads :
      (layer : ModelStorageLayer W) (m v : Text)
      → IsSound laws layer
      → Loads layer (cache_key m v) (load_model m v layer)
  unfolding load_model
  load_model-Loads layer m v s =
      load_cached-Loads layer m v (cached (cache_key m v) layer.lru_list) refl s

  -- A value that is in the cache and on the disk.
  pub load_model-remembered :
      (layer : ModelStorageLayer W) (m v value : Text)
      → IsKey (cache_key m v)
      → cached (cache_key m v) layer.lru_list ≡ some value
      → stored laws layer.root layer.files (cache_key m v) ≡ some value
      → (load_model m v layer).0 ≡ answered (ok value)
  unfolding load_model load_cached
  load_model-remembered layer m v value k found here =
      rw (load_model, load_cached, found, there) refl
    where
      there : fs.exists (checkpoint_path layer m v) layer.files ≡ true
      there = laws.content_exists (checkpoint_path layer m v) value layer.files (
          ap (λ (q : Text). laws.content layer.files q) (checkpoint_path-cache_key layer m v k)
          ∙ here)
