-- ===== src/ModelStorage/Examples.antt =====
-- The layer over files in memory.
use synthgen_core.Prelude.{ℕ, text, text_eq, true, ◌≡◌, refl, [], ◌∷◌, false}
use synthgen_core.Prelude.Int.{pos}
use synthgen_core.Prelude.Dict.{find}
use synthgen_core.Common.Result.{ok}
use synthgen_core.Version.{ModelVersion}
use synthgen_core.ModelStorage.{
  ModelStorageLayer, answered, make_layer, load_model, atomic_write, recover_interrupted, cache_key,
  model_dir, checkpoint_path, pending_path, renamed, pending_written, atomic_in, join,
  remove_in_folders, after_folder, remove_pending, remove_named, after_removal, stem,
}
use synthgen_core.Common.Files.{IsName, is_name, is_plain, only_dots}
use synthgen_core.ModelStorage.Cache.{IsCache}
use synthgen_core.ModelStorage.Memory.{Memory, names_in, memory, memory_laws}
use synthgen_core.ModelStorage.Disk.{Committed, Same}
use synthgen_core.ModelStorage.Writes.{atomic_write-Committed}
use synthgen_core.ModelStorage.Recovery.{recover_interrupted-Same}
use synthgen_core.ModelStorage.Runs.{
  Reached, made, after, writes, Reached-IsCache, load_model-atomic_write,
}

abbrev version : ModelVersion ℕ
version = record {
  version_id = text "v";
  model_name = text "w";
  parent_version_id = [];
  created_at = 0;
  created_by = [];
  is_immutable = false;
  training_data_range = [];
  fidelity_score = 8;
  training_rows = pos 100;
  custom_metadata = [];
}

-- A disk on which a write was interrupted, and a new layer over it.
abbrev disk : Memory
disk = record {
  folders = text "r" ∷ text "r/models" ∷ text "r/models/w" ∷ [];
  entries = (text "r/models/w/u.pending", text "x") ∷ (text "r/models/w/a.parquet", text "y") ∷ [];
}

abbrev interrupted : ModelStorageLayer Memory
interrupted = make_layer (text "r") disk

model_name : IsName (text "w")
unfolding text is_name is_plain only_dots
model_name = refl

plain_id : is_plain (text "v") ≡ true
unfolding text is_plain
plain_id = refl

abbrev two_writes : ModelStorageLayer Memory
two_writes = (atomic_write (text "w") (text "data") version interrupted).1

reached : Reached memory_laws ℕ two_writes
reached =
    after interrupted two_writes (made (text "r") disk)
      (writes (text "w") (text "data") version interrupted model_name plain_id)

atomic_write-Committed_example :
    Committed memory_laws interrupted
      (cache_key (text "w") (text "v"))
      (text "data")
      (atomic_write (text "w") (text "data") version interrupted)
atomic_write-Committed_example =
    atomic_write-Committed memory_laws (text "w") (text "data") version interrupted model_name
      plain_id

Reached-IsCache_example : IsCache two_writes.lru_list
Reached-IsCache_example = Reached-IsCache memory_laws two_writes reached

written : (atomic_write (text "w") (text "data") version interrupted).0 ≡ ok tt
unfolding atomic_write atomic_in pending_written renamed pending_path checkpoint_path model_dir join
    make_layer find text text_eq memory
written = refl

load_model-atomic_write_example :
    (load_model (text "w") (text "v") two_writes).0 ≡ answered (ok (text "data"))
load_model-atomic_write_example =
    load_model-atomic_write memory_laws (text "w") (text "data") version interrupted model_name
      plain_id written

-- The removal loop runs.
removed :
    (recover_interrupted interrupted).1.files.entries
    ≡ ((text "r/models/w/a.parquet", text "y") ∷ [])
unfolding recover_interrupted remove_in_folders after_folder remove_pending remove_named
    after_removal stem join names_in is_name is_plain only_dots make_layer find text text_eq memory
removed = refl

recover_interrupted-Same_example :
    Same memory_laws interrupted.root interrupted.files (recover_interrupted interrupted).1.files
recover_interrupted-Same_example = recover_interrupted-Same memory_laws interrupted
