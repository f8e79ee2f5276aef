-- ===== src/ModelStorage/Writes.antt =====
-- save_checkpoint and atomic_write.
use synthgen_core.Prelude.{
  Text, true, Bool-cases, inl, inr, text_eq, text_eq_iff, ◌≡◌, ◌≢◌, refl, sym, ◌∙◌, subst, Option,
  none, some, arith,
}
use synthgen_core.Common.Files.{
  Files, FileLaws, IsFileOf, IsName, is_plain, WriteResult, written, not_written,
}
use synthgen_core.Version.{ModelVersion}
use synthgen_core.ModelStorage.{
  ModelStorageLayer, model_dir, checkpoint_path, pending_path, cache_key, saved, save_in,
  save_checkpoint, renamed, pending_written, atomic_in, atomic_write,
}
use synthgen_core.ModelStorage.Paths.{
  models_dir, key_path, IsKey, names-IsKey, checkpoint_path-cache_key, pending_path-cache_key,
  pending_path-IsFileOf, key_path-IsFileOf, key_path-injective, pending-ne-key_path,
}
use synthgen_core.ModelStorage.Disk.{stored, Same, Committed, Keeps, Keeps-failed, Keeps-done}

module _ {W : Type 0} ⦃fs : Files W⦄ (laws : FileLaws fs) where
  -- The path of a file of a model that is no checkpoint.
  record Apart (root p : Text) : Type 0 where
    file : IsFileOf (models_dir root) p
    other : (key : Text) → key_path root key ≢ p

  pending_path-Apart :
      (layer : ModelStorageLayer W) (m v : Text)
      → IsKey (cache_key m v)
      → Apart layer.root (pending_path layer m v)
  pending_path-Apart layer m v k = record {
    file = pending_path-IsFileOf layer m v k;
    other = λ key e.
        pending-ne-key_path layer.root (cache_key m v) key (e ∙ pending_path-cache_key layer m v k);
  }

  -- The key of a call, and the others.
  Same-all :
      (root key : Text) (w w' : W)
      → stored laws root w' key ≡ stored laws root w key
      → ((other : Text)
          → IsKey other
          → other ≢ key
          → stored laws root w' other ≡ stored laws root w other)
      → Same laws root w w'
  Same-all root key w w' at_key others k named = elim (Bool-cases (text_eq k key)) [
    | inl e ↦
        subst (λ (x : Text). stored laws root w' x ≡ stored laws root w x)
          (sym ((text_eq_iff k key).0 e)) at_key
    | inr e ↦ others k named (λ eq. ground (arith, e, text_eq_iff k key))
  ]

  -- The rename of a file that was written to the path of the checkpoint.
  renamed-Keeps :
      (layer : ModelStorageLayer W) (key value p : Text) (w : W)
      → IsKey key
      → laws.content w p ≡ some value
      → Apart layer.root p
      → Same laws layer.root layer.files w
      → Keeps laws layer key value
          (renamed key value layer (fs.rename p (key_path layer.root key) w))
  unfolding renamed
  renamed-Keeps layer key value p w named here apart same =
      by_result (fs.rename p q w) (λ e. laws.renamed_content d p q w apart.file to e ∙ here)
        (λ message e. laws.kept_content d p q w message apart.file to e ∙ same key named)
        (λ other k ne.
          laws.rename_other d p q (key_path layer.root other) w apart.file to
            (key_path-IsFileOf layer.root other k) (apart.other other)
            (λ eq. ne (key_path-injective layer.root other key eq))
          ∙ same other k)
    where
      d : Text
      d = models_dir layer.root

      to : IsFileOf (models_dir layer.root) (key_path layer.root key)
      to = key_path-IsFileOf layer.root key named

      q : Text
      q = key_path layer.root key

      by_result :
          (out : Option Text × W)
          → (out.0 ≡ none → laws.content out.1 q ≡ some value)
          → ((message : Text)
              → out.0 ≡ some message
              → laws.content out.1 q ≡ stored laws layer.root layer.files key)
          → ((other : Text)
              → IsKey other
              → other ≢ key
              → stored laws layer.root out.1 other ≡ stored laws layer.root layer.files other)
          → Keeps laws layer key value (renamed key value layer out)
      by_result (none, w') done kept others = Keeps-done laws layer key value w' (done refl) others
      by_result (some message, w') done kept others =
          Keeps-failed laws layer key value _ w'
            (Same-all layer.root key layer.files w' (kept message refl) others)

  pending_written-Keeps :
      (layer : ModelStorageLayer W) (m v value : Text) (w : W)
      → IsKey (cache_key m v)
      → Same laws layer.root layer.files w
      → Keeps laws layer
          (cache_key m v)
          value
          (pending_written m v value layer (fs.write (pending_path layer m v) value w))
  unfolding pending_written
  pending_written-Keeps layer m v value w named same =
      by_result (fs.write p value w)
        (λ e. laws.written_content (models_dir layer.root) p value w apart.file e)
        (λ key k.
          laws.write_other (models_dir layer.root) p (key_path layer.root key) value w apart.file
            (key_path-IsFileOf layer.root key k) (apart.other key)
          ∙ same key k)
    where
      apart : Apart layer.root (pending_path layer m v)
      apart = pending_path-Apart layer m v named

      p : Text
      p = pending_path layer m v

      by_result :
          (out : WriteResult × W)
          → (out.0 ≡ written → laws.content out.1 p ≡ some value)
          → Same laws layer.root layer.files out.1
          → Keeps laws layer (cache_key m v) value (pending_written m v value layer out)
      by_result (WriteResult.not_opened, w') done same = Keeps-failed laws layer _ value _ w' same
      by_result (not_written, w') done same = Keeps-failed laws layer _ value _ w' same
      by_result (written, w') done same =
          subst
            (λ q.
              Keeps laws layer (cache_key m v) value
                (renamed (cache_key m v) value layer (fs.rename p q w')))
            (sym (checkpoint_path-cache_key layer m v named))
            (renamed-Keeps layer (cache_key m v) value p w' named (done refl) apart same)

  atomic_in-Keeps :
      (layer : ModelStorageLayer W) (m v value : Text) (out : Option Text × W)
      → IsKey (cache_key m v)
      → Same laws layer.root layer.files out.1
      → Keeps laws layer (cache_key m v) value (atomic_in m v value layer out)
  unfolding atomic_in
  atomic_in-Keeps layer m v value (some message, w) k same =
      Keeps-failed laws layer _ value _ w same
  atomic_in-Keeps layer m v value (none, w) k same = pending_written-Keeps layer m v value w k same

  pub atomic_write-Keeps :
      {F : Type 0} (m value : Text) (version : ModelVersion F) (layer : ModelStorageLayer W)
      → IsKey (cache_key m version.version_id)
      → Keeps laws layer (cache_key m version.version_id) value (atomic_write m value version layer)
  unfolding atomic_write
  atomic_write-Keeps m value version layer k =
      atomic_in-Keeps layer m version.version_id value
        (fs.create_directories (model_dir layer m) layer.files) k
        (λ key _. laws.folder_content (model_dir layer m) (key_path layer.root key) layer.files)

  -- For a plain name of a model and a plain version id: atomic_write either fails, and then every
  -- checkpoint of plain names on the disk is the one that was there before, or succeeds, and then the
  -- checkpoint of its version holds the data and every other one of plain names is the one that was
  -- there before. No failure leaves a checkpoint that is cut off.
  pub atomic_write-Committed :
      {F : Type 0} (m value : Text) (version : ModelVersion F) (layer : ModelStorageLayer W)
      → IsName m
      → is_plain version.version_id ≡ true
      → Committed laws layer
          (cache_key m version.version_id)
          value
          (atomic_write m value version layer)
  atomic_write-Committed m value version layer named plain =
      (atomic_write-Keeps m value version layer
        (names-IsKey m version.version_id named plain)).committed

  -- save_checkpoint, where the file that it opened is written in full.
  saved-Keeps :
      (layer : ModelStorageLayer W) (key value : Text) (w : W)
      → IsKey key
      → Same laws layer.root layer.files w
      → (fs.write (key_path layer.root key) value w).0 ≢ not_written
      → Keeps laws layer key value
          (saved key value layer (fs.write (key_path layer.root key) value w))
  unfolding saved
  saved-Keeps layer key value w named same full =
      by_result (fs.write p value w) full (λ e. laws.written_content d p value w file e)
        (λ e. laws.closed_content d p value w file e ∙ same key named)
        (λ other k ne.
          laws.write_other d p (key_path layer.root other) value w file
            (key_path-IsFileOf layer.root other k)
            (λ eq. ne (key_path-injective layer.root other key eq))
          ∙ same other k)
    where
      d : Text
      d = models_dir layer.root

      file : IsFileOf (models_dir layer.root) (key_path layer.root key)
      file = key_path-IsFileOf layer.root key named

      p : Text
      p = key_path layer.root key

      by_result :
          (out : WriteResult × W)
          → out.0 ≢ not_written
          → (out.0 ≡ written → laws.content out.1 p ≡ some value)
          → (out.0 ≡ WriteResult.not_opened
              → laws.content out.1 p ≡ stored laws layer.root layer.files key)
          → ((other : Text)
              → IsKey other
              → other ≢ key
              → stored laws layer.root out.1 other ≡ stored laws layer.root layer.files other)
          → Keeps laws layer key value (saved key value layer out)
      by_result (WriteResult.not_opened, w') full done closed others =
          Keeps-failed laws layer key value _ w'
            (Same-all layer.root key layer.files w' (closed refl) others)
      by_result (not_written, w') full done closed others = absurd (full refl)
      by_result (written, w') full done closed others =
          Keeps-done laws layer key value w' (done refl) others

  save_in-Keeps :
      (layer : ModelStorageLayer W) (m v value : Text) (out : Option Text × W)
      → IsKey (cache_key m v)
      → Same laws layer.root layer.files out.1
      → (fs.write (checkpoint_path layer m v) value out.1).0 ≢ not_written
      → Keeps laws layer (cache_key m v) value (save_in m v value layer out)
  unfolding save_in
  save_in-Keeps layer m v value (some message, w) k same full =
      Keeps-failed laws layer _ value _ w same
  save_in-Keeps layer m v value (none, w) k same full =
      subst
        (λ q.
          (fs.write q value w).0 ≢ not_written
          → Keeps laws layer (cache_key m v) value
              (saved (cache_key m v) value layer (fs.write q value w)))
        (sym (checkpoint_path-cache_key layer m v k))
        (saved-Keeps layer (cache_key m v) value w k same) full

  -- The write of save_checkpoint does not stop in the middle of the file.
  abbrev pub WritesFully : Text → Text → Text → ModelStorageLayer W → Type 0
  WritesFully m v value layer =
      (fs.write (checkpoint_path layer m v) value
        (fs.create_directories (model_dir layer m) layer.files).1).0
      ≢ not_written

  pub save_checkpoint-Keeps :
      (m v value : Text) (layer : ModelStorageLayer W)
      → IsKey (cache_key m v)
      → WritesFully m v value layer
      → Keeps laws layer (cache_key m v) value (save_checkpoint m v value layer)
  unfolding save_checkpoint
  save_checkpoint-Keeps m v value layer k full =
      save_in-Keeps layer m v value (fs.create_directories (model_dir layer m) layer.files) k
        (λ key _. laws.folder_content (model_dir layer m) (key_path layer.root key) layer.files)
        full
