-- ===== src/ModelStorage.antt =====
-- storage/model/: the layer that keeps the versions of the models in files, with a cache of the
-- ones used last.
mod Cache
pub mod Paths
pub mod Disk
mod Writes
pub mod Loads
pub mod Memory
mod Recovery
pub mod Runs
mod Examples
use synthgen_core.Prelude.{
  ℕ, zero, suc, Text, text, text_eq, Bool, true, false, not, ◌&&◌, ◌||◌, Option, none, some, List,
  [], ◌∷◌, ◌++◌, length, take, drop, ◌-◌, leb, ltb, ◌==◌, if◌then◌else◌, map,
}
use synthgen_core.Common.Result.{
  Result, Error, ok, err, fail, write_failed, read_failed, version_not_found,
}
use synthgen_core.Common.Files
use synthgen_core.Common.Files.{
  Files, WriteResult, written, not_written, ReadResult, loaded, no_size, not_read,
}
use synthgen_core.Version.{ModelVersion}

abbrev pub CacheEntry : Type 0
CacheEntry = Text × Text

-- `lru_map_` finds for each key of `lru_list_` its entry there: here it is a search of the list.
-- `files` is the state of the disk.
pub record ModelStorageLayer (W : Type 0) : Type 0 where
  pub root : Text
  pub lru_list : List CacheEntry
  pub files : W

abbrev pub max_cache_size : ℕ
max_cache_size = 5

-- A path after which `/` adds no separator: it is empty or ends with one.
unfoldable pub no_file_name : Text → Bool
no_file_name [] = true
no_file_name (c ∷ []) = c == 47
no_file_name (c ∷ d ∷ s) = no_file_name (d ∷ s)

unfoldable pub is_absolute : Text → Bool
is_absolute [] = false
is_absolute (c ∷ s) = c == 47

-- std::filesystem's `/`
unfoldable pub join : Text → Text → Text
unfolding no_file_name is_absolute
join a b = if is_absolute b then b else if no_file_name a then a ++ b else a ++ (47 ∷ b)

module _ {W : Type 0} where
  unfoldable pub model_dir : ModelStorageLayer W → Text → Text
  unfolding text join
  model_dir layer model_name = join (join layer.root (text "models")) model_name

  unfoldable pub checkpoint_path : ModelStorageLayer W → Text → Text → Text
  unfolding text model_dir join
  checkpoint_path layer model_name version_id =
      join (model_dir layer model_name) (version_id ++ text ".parquet")

  unfoldable pub pending_path : ModelStorageLayer W → Text → Text → Text
  unfolding text model_dir join
  pending_path layer model_name version_id =
      join (model_dir layer model_name) (version_id ++ text ".pending")

unfoldable pub cache_key : Text → Text → Text
cache_key model_name version_id = model_name ++ (47 ∷ version_id)

unfoldable pub cached : Text → List CacheEntry → Option Text
cached key [] = none
cached key ((k, v) ∷ entries) =
    let rest = cached key entries in if text_eq k key then some v else rest

unfoldable pub erase : Text → List CacheEntry → List CacheEntry
erase key [] = []
erase key ((k, v) ∷ entries) =
    let rest = erase key entries in if text_eq k key then entries else (k, v) ∷ rest

-- pop_back, where the list is full
unfoldable pub evict : List CacheEntry → List CacheEntry
evict entries =
    if leb max_cache_size (length entries) then take (length entries - 1) entries else entries

unfoldable pub cache_value : Text → Text → List CacheEntry → List CacheEntry
unfolding cached erase evict
cache_value key value entries = elim (cached key entries) [
  | none ↦ (key, value) ∷ evict entries
  | some old ↦ (key, value) ∷ erase key entries
]

module _ {W : Type 0} where
  unfoldable pub update_cache : Text → Text → ModelStorageLayer W → ModelStorageLayer W
  unfolding cache_value
  update_cache key value layer = record layer { lru_list = cache_value key value layer.lru_list }

  abbrev pub with_files : W → ModelStorageLayer W → ModelStorageLayer W
  with_files w layer = record { root = layer.root; lru_list = layer.lru_list; files = w }

  abbrev pub with_list : List CacheEntry → ModelStorageLayer W → ModelStorageLayer W
  with_list entries layer = record { root = layer.root; lru_list = entries; files = layer.files }

-- What load_model gives, or std::length_error: the size -1 of tellg becomes the length of a string.
pub data LoadAnswer : Type 0 where
  answered : Result Text → LoadAnswer
  threw : LoadAnswer

abbrev pub layer_name : Text
unfolding text
layer_name = text "ModelStorageLayer"

module _ {W : Type 0} ⦃fs : Files W⦄ where
  unfoldable pub make_layer : Text → W → ModelStorageLayer W
  make_layer storage_root w = record {
    root = storage_root;
    lru_list = [];
    files = (fs.create_directories storage_root w).1;
  }

  -- save_checkpoint after the file was written
  unfoldable pub saved :
      Text → Text → ModelStorageLayer W → WriteResult × W → Result (Unit {0}) × ModelStorageLayer W
  unfolding update_cache
  saved key value layer (WriteResult.not_opened, w) = (
    fail write_failed (text "Failed to open checkpoint file for writing") layer_name,
    with_files w layer,
  )
  saved key value layer (not_written, w) =
      (fail write_failed (text "Failed to write checkpoint data") layer_name, with_files w layer)
  saved key value layer (written, w) = (ok tt, update_cache key value (with_files w layer))

  -- save_checkpoint after the directory was created
  unfoldable pub save_in :
      Text
      → Text
      → Text
      → ModelStorageLayer W
      → Option Text × W
      → Result (Unit {0}) × ModelStorageLayer W
  unfolding saved checkpoint_path cache_key
  save_in model_name version_id value layer (some message, w) = (
    fail write_failed (text "Failed to create model directory: " ++ message) layer_name,
    with_files w layer,
  )
  save_in model_name version_id value layer (none, w) =
      saved (cache_key model_name version_id) value layer
        (fs.write (checkpoint_path layer model_name version_id) value w)

  unfoldable pub save_checkpoint :
      Text → Text → Text → ModelStorageLayer W → Result (Unit {0}) × ModelStorageLayer W
  unfolding save_in model_dir
  save_checkpoint model_name version_id value layer =
      save_in model_name version_id value layer
        (fs.create_directories (model_dir layer model_name) layer.files)

  -- load_model after the file was read
  unfoldable pub read_in :
      Text → ReadResult → ModelStorageLayer W → LoadAnswer × ModelStorageLayer W
  unfolding update_cache
  read_in key ReadResult.not_opened layer = (
    answered (fail read_failed (text "Failed to open checkpoint file for reading") layer_name),
    layer,
  )
  read_in key no_size layer = (threw, layer)
  read_in key not_read layer =
      (answered (fail read_failed (text "Failed to read checkpoint data") layer_name), layer)
  read_in key (loaded value) layer = (answered (ok value), update_cache key value layer)

  -- load_model from the file, on a miss
  unfoldable pub load_file : Text → Text → ModelStorageLayer W → LoadAnswer × ModelStorageLayer W
  unfolding checkpoint_path cache_key read_in
  load_file model_name version_id layer =
      let path = checkpoint_path layer model_name version_id in
      if not (fs.exists path layer.files)
      then (
        answered (fail version_not_found (text "Version not found: " ++ version_id) layer_name),
        layer,
      )
      else read_in (cache_key model_name version_id) (fs.read path layer.files) layer

  -- load_model after the search of the cache
  unfoldable pub load_cached :
      Text → Text → Option Text → ModelStorageLayer W → LoadAnswer × ModelStorageLayer W
  unfolding checkpoint_path cache_key load_file erase
  load_cached model_name version_id none layer = load_file model_name version_id layer
  load_cached model_name version_id (some value) layer =
      let key = cache_key model_name version_id in
      let entries = erase key layer.lru_list in
      if fs.exists (checkpoint_path layer model_name version_id) layer.files
      then (answered (ok value), with_list ((key, value) ∷ entries) layer)
      else load_file model_name version_id (with_list entries layer)

  unfoldable pub load_model : Text → Text → ModelStorageLayer W → LoadAnswer × ModelStorageLayer W
  unfolding load_cached cached cache_key
  load_model model_name version_id layer =
      load_cached model_name version_id (cached (cache_key model_name version_id) layer.lru_list)
        layer

  -- atomic_write after the rename
  unfoldable pub renamed :
      Text → Text → ModelStorageLayer W → Option Text × W → Result (Unit {0}) × ModelStorageLayer W
  unfolding update_cache
  renamed key value layer (some message, w) = (
    fail write_failed (text "Phase 2 failed: rename .pending to .parquet: " ++ message) layer_name,
    with_files w layer,
  )
  renamed key value layer (none, w) = (ok tt, update_cache key value (with_files w layer))

  -- atomic_write after the .pending file was written
  unfoldable pub pending_written :
      Text
      → Text
      → Text
      → ModelStorageLayer W
      → WriteResult × W
      → Result (Unit {0}) × ModelStorageLayer W
  unfolding renamed checkpoint_path pending_path cache_key
  pending_written model_name version_id value layer (WriteResult.not_opened, w) = (
    fail write_failed (text "Phase 1 failed: cannot open .pending file") layer_name,
    with_files w layer,
  )
  pending_written model_name version_id value layer (not_written, w) = (
    fail write_failed (text "Phase 1 failed: write to .pending failed") layer_name,
    with_files w layer,
  )
  pending_written model_name version_id value layer (written, w) =
      renamed (cache_key model_name version_id) value layer (
        fs.rename (pending_path layer model_name version_id)
          (checkpoint_path layer model_name version_id) w)

  -- atomic_write after the directory was created
  unfoldable pub atomic_in :
      Text
      → Text
      → Text
      → ModelStorageLayer W
      → Option Text × W
      → Result (Unit {0}) × ModelStorageLayer W
  unfolding pending_written pending_path
  atomic_in model_name version_id value layer (some message, w) = (
    fail write_failed (text "Failed to create model directory: " ++ message) layer_name,
    with_files w layer,
  )
  atomic_in model_name version_id value layer (none, w) =
      pending_written model_name version_id value layer
        (fs.write (pending_path layer model_name version_id) value w)

  unfoldable pub atomic_write :
      {F : Type 0}
      → Text
      → Text
      → ModelVersion F
      → ModelStorageLayer W
      → Result (Unit {0}) × ModelStorageLayer W
  unfolding atomic_in model_dir
  atomic_write model_name value version layer =
      atomic_in model_name version.version_id value layer
        (fs.create_directories (model_dir layer model_name) layer.files)

-- The name of a file without this extension, where it has it.
unfoldable pub stem : Text → Text → Option Text
stem extension name =
    let n = length name - length extension in
    if ltb (length extension) (length name) && text_eq (drop n name) extension
    then some (take n name)
    else none

unfoldable pub stems : Text → List Text → List Text
unfolding stem
stems extension [] = []
stems extension (name ∷ names) =
    let rest = stems extension names in
    elim (stem extension name) [ none ↦ rest | some version_id ↦ version_id ∷ rest ]

module _ {W : Type 0} ⦃fs : Files W⦄ where
  unfoldable pub list_model_versions : Text → ModelStorageLayer W → Result (List Text)
  unfolding stems model_dir text
  list_model_versions model_name layer =
      let dir = model_dir layer model_name in
      if not (fs.exists dir layer.files)
      then ok []
      else ok (stems (text ".parquet") (fs.files_in dir layer.files))

  -- what follows the removal of a file; `next` is the loop
  unfoldable pub after_removal :
      Text → (W → Result (Unit {0}) × W) → Option Text × W → Result (Unit {0}) × W
  after_removal path next (some message, w) =
      (fail write_failed (text "Failed to remove orphan .pending file: " ++ path) layer_name, w)
  after_removal path next (none, w) = next w

  -- The file is removed if it has the extension of a write that is under way.
  unfoldable pub remove_named :
      Text → Option Text → (W → Result (Unit {0}) × W) → W → Result (Unit {0}) × W
  unfolding after_removal
  remove_named path none next w = next w
  remove_named path (some version_id) next w = after_removal path next (fs.remove path w)

  -- The loop over the files of a model; the names are those that were there at its start.
  unfoldable pub remove_pending : Text → List Text → W → Result (Unit {0}) × W
  unfolding stem remove_named text join
  remove_pending dir [] w = (ok tt, w)
  remove_pending dir (name ∷ names) w =
      remove_named (join dir name) (stem (text ".pending") name) (remove_pending dir names) w

  unfoldable pub after_folder :
      (W → Result (Unit {0}) × W) → Result (Unit {0}) × W → Result (Unit {0}) × W
  after_folder next (err e, w) = (err e, w)
  after_folder next (ok _, w) = next w

  -- The loop over the directories of the models.
  unfoldable pub remove_in_folders : Text → List Text → W → Result (Unit {0}) × W
  unfolding remove_pending after_folder join
  remove_in_folders dir [] w = (ok tt, w)
  remove_in_folders dir (name ∷ names) w =
      after_folder (remove_in_folders dir names)
        (remove_pending (join dir name) (fs.files_in (join dir name) w) w)

  unfoldable pub recover_interrupted : ModelStorageLayer W → Result (Unit {0}) × ModelStorageLayer W
  unfolding remove_in_folders text join
  recover_interrupted layer =
      let dir = join layer.root (text "models") in
      if not (fs.exists dir layer.files)
      then (ok tt, layer)
      else let out = remove_in_folders dir (fs.folders_in dir layer.files) layer.files in
        (out.0, with_files out.1 layer)
