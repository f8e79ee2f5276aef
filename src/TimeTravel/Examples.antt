-- ===== src/TimeTravel/Examples.antt =====
-- The theorems at a chain of one version, with a storage that holds nothing and with one that holds
-- the version.
use synthgen_core.Prelude.{
  Option, some, ℕ, ◌+◌, Text, text, text_eq, text_mem, false, none, true, List, [], ◌∷◌, ◌≡◌, ◌≢◌,
  refl, arith,
}
use synthgen_core.Prelude.Dict.{find, insert}
use synthgen_core.Prelude.Hex.{to_hex}
use synthgen_core.Prelude.Int.{pos}
use synthgen_core.Common.Result.{ok, fail, model_not_found}
use synthgen_core.Version.{
  ModelVersion, init, walk, has_cycle, generate_version_id, check_parent, new_version, push_version,
  store, create_version, get_version, version_id_text,
}
use synthgen_core.Version.Keeps.{Call, perform, run, run-init-IsSound}
use synthgen_core.ModelStorage.{
  ModelStorageLayer, make_layer, load_model, atomic_write, cache_key, model_dir, checkpoint_path,
  pending_path, cached, erase, evict, cache_value, update_cache, read_in, load_file, load_cached,
  renamed, pending_written, atomic_in, join, no_file_name, is_absolute,
}
use synthgen_core.Common.Files.{IsName, is_name, is_plain, only_dots}
use synthgen_core.ModelStorage.Paths.{key_path, models_dir}
use synthgen_core.ModelStorage.Loads.{IsClear}
use synthgen_core.ModelStorage.Memory.{Memory, memory, memory_laws, memory_content}
use synthgen_core.ModelStorage.Runs.{Reached, made, after, writes}
use synthgen_core.TimeTravel.{
  TimeTravelResult, Storage, query_as_of, after_lookup, exact_or_degraded,
}
use synthgen_core.TimeTravel.Stored.{answer_of, layer_storage, OnDisk, query_as_of-OnDisk}
use synthgen_core.TimeTravel.Query.{Answers, query_as_of-Answers}

abbrev blank : ModelVersion ℕ
blank = record {
  version_id = [];
  model_name = [];
  parent_version_id = [];
  created_at = 0;
  created_by = [];
  is_immutable = false;
  training_data_range = [];
  fidelity_score = 8;
  training_rows = pos 100;
  custom_metadata = [];
}

abbrev calls : List (Call ℕ)
calls =
    record {
      model_name = text "wind";
      parent = [];
      metadata = blank;
      now = record { system_ticks = 1; steady_us = 1; random = 7 };
    }
    ∷ []

-- The storage counts the loads.
abbrev counting : Storage ℕ
counting = record {
  load_model =
      λ model version n. (fail model_not_found (text "no such file") (text "model"), n + 1);
}

wind_named : text "wind" ≢ []
unfolding text
wind_named e = cc

id_given : text "mv_9" ≢ []
unfolding text
id_given e = cc

query_as_of-Answers_example :
    Answers counting
      (run init calls)
      (text "wind")
      (text "mv_9")
      0
      (query_as_of counting (run init calls) (text "wind") (text "mv_9") 0).0
query_as_of-Answers_example =
    query_as_of-Answers counting (run init calls) (text "wind")
      (run-init-IsSound calls (omega arith)) (text "mv_9") 0 wind_named id_given

abbrev id : Text
id = version_id_text 1 0 7

abbrev first_version : ModelVersion ℕ
unfolding new_version text_eq text
first_version = new_version id (text "wind") [] blank 1

abbrev no_files : Memory
no_files = record { folders = []; entries = [] }

abbrev empty : ModelStorageLayer Memory
empty = make_layer (text "r") no_files

abbrev filled : ModelStorageLayer Memory
filled = (atomic_write (text "wind") (text "data") first_version empty).1

plain_wind : IsName (text "wind")
unfolding text is_name is_plain only_dots
plain_wind = refl

plain_id : is_plain first_version.version_id ≡ true
unfolding first_version version_id_text text to_hex is_plain
plain_id = refl

filled_reached : Reached memory_laws ℕ filled
filled_reached =
    after empty filled (made (text "r") no_files)
      (writes (text "wind") (text "data") first_version empty plain_wind plain_id)

abbrev answer : TimeTravelResult ℕ
answer = record {
  payload = text "data";
  version = first_version;
  bias_report = none;
  was_degraded = false;
}

answered : (query_as_of layer_storage (run init calls) (text "wind") id filled).0 ≡ ok answer
unfolding query_as_of answer_of after_lookup exact_or_degraded load_model load_cached cached
    load_file read_in update_cache cache_value erase evict atomic_write atomic_in pending_written
    renamed pending_path checkpoint_path model_dir join make_layer cache_key memory run perform
    create_version check_parent generate_version_id new_version has_cycle walk store push_version
    get_version init find insert version_id_text to_hex text text_eq text_mem
answered = refl

id_not_empty : id ≢ []
unfolding version_id_text text
id_not_empty e = cc

found-ne-none : {o : Option Text} {v : Text} → o ≡ some v → o ≢ none
found-ne-none found gone = absurd cc

there : OnDisk memory_laws (text "wind") filled id (text "data")
unfolding atomic_write atomic_in pending_written renamed pending_path checkpoint_path model_dir join
    cache_key models_dir key_path make_layer find text text_eq memory update_cache no_file_name
    is_absolute version_id_text to_hex first_version
there = memory_content (key_path (text "r") (cache_key (text "wind") id)) filled.files

clear : IsClear memory_laws filled (cache_key (text "wind") id)
unfolding atomic_write atomic_in pending_written renamed make_layer update_cache memory pending_path
    checkpoint_path model_dir join text no_file_name is_absolute find text_eq version_id_text to_hex
    first_version
clear _ = found-ne-none there

query_as_of-OnDisk_example :
    OnDisk memory_laws (text "wind") filled answer.version.version_id answer.payload
unfolding first_version version_id_text
query_as_of-OnDisk_example =
    query_as_of-OnDisk memory_laws (text "wind") (run init calls) filled id answer filled_reached
      (run-init-IsSound calls (omega arith)) plain_wind id_not_empty answered plain_id clear
