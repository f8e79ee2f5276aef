-- ===== src/ModelStorage/Recovery.antt =====
-- recover_interrupted.
use synthgen_core.Prelude.{
  ℕ, zero, suc, ◌-◌, Text, text, text_eq, of_text_eq, not, ◌&&◌, ◌≡◌, refl, sym, ap, ◌∙◌, Option,
  none, some, List, [], ◌∷◌, ◌++◌, length, take, drop, ltb, All, arith, if_rule,
}
use synthgen_core.Common.Result.{Result, ok, err}
use synthgen_core.Common.Files.{Files, FileLaws, IsName}
use synthgen_core.ModelStorage.{
  ModelStorageLayer, join, stem, after_removal, remove_named, remove_pending, after_folder,
  remove_in_folders, recover_interrupted,
}
use synthgen_core.ModelStorage.Paths.{
  models_dir, key_path, key_path-IsFileOf, path-IsFileOf, path-ne-key_path,
}
use synthgen_core.ModelStorage.Disk.{IsSound, Same, with_files-IsSound}

take-drop : (n : ℕ) (s : Text) → take n s ++ drop n s ≡ s
take-drop zero s = refl
take-drop (suc n) [] = refl
take-drop (suc n) (c ∷ s) = ap (λ (t : Text). c ∷ t) (take-drop n s)

stem-append : (extension name x : Text) → stem extension name ≡ some x → name ≡ x ++ extension
unfolding stem
stem-append extension name x e =
    let n = length name - length extension in
    if_rule (λ (o : Option Text). o ≡ some x → name ≡ x ++ extension)
      (ltb (length extension) (length name) && text_eq (drop n name) extension)
      (λ ends found.
        let same : drop n name ≡ extension =
          of_text_eq (drop n name) extension (ground (arith, ends)) in
        let front : take n name ≡ x = cc in
        sym (take-drop n name)
        ∙ (ap (λ (t : Text). take n name ++ t) same ∙ ap (λ (t : Text). t ++ extension) front))
      (λ _ found. absurd cc) e

module _ {W : Type 0} ⦃fs : Files W⦄ (laws : FileLaws fs) (root : Text) where
  after_removal-Same :
      (path : Text) (next : W → Result (Unit {0}) × W) (w : W) (out : Option Text × W)
      → ((w' : W) → Same laws root w' (next w').1)
      → Same laws root w out.1
      → Same laws root w (after_removal path next out).1
  unfolding after_removal
  after_removal-Same path next w (some message, w') rest same = same
  after_removal-Same path next w (none, w') rest same = λ key k. rest w' key k ∙ same key k

  remove_named-Same :
      (folder name : Text) (o : Option Text) (next : W → Result (Unit {0}) × W) (w : W)
      → IsName folder
      → IsName name
      → stem (text ".pending") name ≡ o
      → ((w' : W) → Same laws root w' (next w').1)
      → Same laws root w (remove_named (join (join (models_dir root) folder) name) o next w).1
  unfolding remove_named
  remove_named-Same folder name none next w d f e rest = rest w
  remove_named-Same folder name (some x) next w d f e rest =
      let path = join (join (models_dir root) folder) name in
      after_removal-Same path next w (fs.remove path w) rest (λ key k.
        laws.remove_other (models_dir root) path (key_path root key) w
          (path-IsFileOf root folder name d f) (key_path-IsFileOf root key k)
          (path-ne-key_path root folder name d f x key (stem-append (text ".pending") name x e)))

  remove_pending-Same :
      (folder : Text) (names : List Text) (w : W)
      → IsName folder
      → All IsName names
      → Same laws root w (remove_pending (join (models_dir root) folder) names w).1
  unfolding remove_pending
  remove_pending-Same folder [] w d files = λ key _. refl
  remove_pending-Same folder (name ∷ names) w d files =
      remove_named-Same folder name (stem (text ".pending") name)
        (remove_pending (join (models_dir root) folder) names) w d files.0 refl
        (λ w'. remove_pending-Same folder names w' d files.1)

  after_folder-Same :
      (next : W → Result (Unit {0}) × W) (w : W) (out : Result (Unit {0}) × W)
      → ((w' : W) → Same laws root w' (next w').1)
      → Same laws root w out.1
      → Same laws root w (after_folder next out).1
  unfolding after_folder
  after_folder-Same next w (err e, w') rest same = same
  after_folder-Same next w (ok _, w') rest same = λ key k. rest w' key k ∙ same key k

  remove_in_folders-Same :
      (names : List Text) (w : W)
      → All IsName names
      → Same laws root w (remove_in_folders (models_dir root) names w).1
  unfolding remove_in_folders
  remove_in_folders-Same [] w folders = λ key _. refl
  remove_in_folders-Same (name ∷ names) w folders =
      after_folder-Same (remove_in_folders (models_dir root) names) w
        (remove_pending (join (models_dir root) name) (fs.files_in (join (models_dir root) name) w)
          w)
        (λ w'. remove_in_folders-Same names w' folders.1)
        (remove_pending-Same name (fs.files_in (join (models_dir root) name) w) w folders.0
          (laws.file_names (join (models_dir root) name) w))

module _ {W : Type 0} ⦃fs : Files W⦄ (laws : FileLaws fs) where
  -- recover_interrupted leaves every checkpoint of plain names on the disk as it is, whether it succeeds or fails.
  pub recover_interrupted-Same :
      (layer : ModelStorageLayer W)
      → Same laws layer.root layer.files (recover_interrupted layer).1.files
  unfolding recover_interrupted models_dir
  recover_interrupted-Same layer =
      if_rule
        (λ (out : Result (Unit {0}) × ModelStorageLayer W).
          Same laws layer.root layer.files out.1.files)
        (not (fs.exists (models_dir layer.root) layer.files)) (λ _ key _. refl)
        (λ _.
          remove_in_folders-Same laws layer.root (fs.folders_in (models_dir layer.root) layer.files)
            layer.files (laws.folder_names (models_dir layer.root) layer.files))

  pub recover_interrupted-IsSound :
      (layer : ModelStorageLayer W)
      → IsSound laws layer
      → IsSound laws (recover_interrupted layer).1
  unfolding recover_interrupted models_dir
  recover_interrupted-IsSound layer s =
      let dir = models_dir layer.root in
      let names = fs.folders_in dir layer.files in
      if_rule (λ (out : Result (Unit {0}) × ModelStorageLayer W). IsSound laws out.1)
        (not (fs.exists dir layer.files)) (λ _. s)
        (λ _.
          with_files-IsSound laws (remove_in_folders dir names layer.files).1 layer
            (remove_in_folders-Same laws layer.root names layer.files
              (laws.folder_names dir layer.files))
            s)
