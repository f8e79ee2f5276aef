-- ===== src/TimeTravel/Stored.antt =====
-- Queries over the storage layer of ModelStorage.
use synthgen_core.Prelude.{
  text, Text, true, ◌∷◌, ◌≡◌, ◌≢◌, refl, sym, ap, ◌∙◌, subst, inl, inr, some, List, [],
}
use synthgen_core.Common.Result.{Result, ok, err, fail, read_failed}
use synthgen_core.Common.Files.{Files, FileLaws, IsName, is_name, is_plain, only_dots}
use synthgen_core.Version.{ModelVersion, ModelVersionChain}
use synthgen_core.Version.Invariant
use synthgen_core.Version.Listing.{found_of_get_version}
use synthgen_core.ModelStorage.{
  ModelStorageLayer, LoadAnswer, answered, threw, load_model, cache_key,
}
use synthgen_core.ModelStorage.Paths.{IsKey, key_path, names-IsKey}
use synthgen_core.ModelStorage.Disk.{stored, IsSound}
use synthgen_core.ModelStorage.Loads.{Answers, IsClear, load_model-Loads}
use synthgen_core.ModelStorage.Runs.{Reached, Reached-IsSound}
use synthgen_core.TimeTravel.{TimeTravelResult, Storage, query_as_of}
use synthgen_core.TimeTravel.Query
use synthgen_core.TimeTravel.Query.{FirstLoad, Missed, query_as_of-Answers}

-- The answer of a load for a query. An exception of load_model leaves the query too, which then
-- returns nothing; here it is an error, so a query of the code that returns is one of the model.
unfoldable pub answer_of : LoadAnswer → Result Text
unfolding text
answer_of (answered r) = r
answer_of threw = fail read_failed (text "std::length_error") (text "ModelStorageLayer")

-- The layer as the storage of the queries: time_travel_engine.h holds a reference to it.
abbrev pub layer_storage : {W : Type 0} ⦃fs : Files W⦄ → Storage (ModelStorageLayer W)
layer_storage = record {
  load_model = λ m v layer. let out = load_model m v layer in (answer_of out.0, out.1);
}

name-nonempty : (s : Text) → IsName s → s ≢ []
unfolding is_name is_plain only_dots
name-nonempty [] named e = absurd cc
name-nonempty (c ∷ s) named e = absurd cc

module _ {W : Type 0} ⦃fs : Files W⦄ (laws : FileLaws fs) (model_name : Text) where
  -- A state of the layer during a query: as good as at its start, on the same disk.
  record During (start layer : ModelStorageLayer W) : Type 0 where
    sound : IsSound laws layer
    same_files : layer.files ≡ start.files
    same_root : layer.root ≡ start.root

  -- What is on the disk at the start of the query, for a version of the model.
  abbrev pub OnDisk : ModelStorageLayer W → Text → Text → Type 0
  OnDisk start version_id loaded =
      stored laws start.root start.files (cache_key model_name version_id) ≡ some loaded

  -- The same for plain names, where nothing but a regular file is at the path of the checkpoint.
  Found : ModelStorageLayer W → Text → Text → Type 0
  Found start version_id loaded =
      IsKey (cache_key model_name version_id)
      → IsClear laws start (cache_key model_name version_id)
      → OnDisk start version_id loaded

  stored-start :
      (start layer : ModelStorageLayer W) (key : Text)
      → During start layer
      → stored laws layer.root layer.files key ≡ stored laws start.root start.files key
  stored-start start layer key d =
      ap (λ (w : W). stored laws layer.root w key) d.same_files
      ∙ ap (λ (r : Text). stored laws r start.files key) d.same_root

  Answers-start :
      (start layer : ModelStorageLayer W) (version_id : Text) (answer : Result Text)
      → During start layer
      → Answers laws layer (cache_key model_name version_id) (answered answer)
      → Answers laws start (cache_key model_name version_id) (answered answer)
  Answers-start start layer version_id (ok value) d h =
      sym (stored-start start layer (cache_key model_name version_id) d) ∙ h
  Answers-start start layer version_id (err e) d (inl (code, gone)) =
      inl (code, sym (stored-start start layer (cache_key model_name version_id) d) ∙ gone)
  Answers-start start layer version_id (err e) d (inr code) = inr code

  IsClear-start :
      (start layer : ModelStorageLayer W) (key : Text)
      → During start layer
      → IsClear laws start key
      → IsClear laws layer key
  IsClear-start start layer key d clear here gone =
      clear
        (subst (λ (r : Text). fs.exists (key_path r key) start.files ≡ true) d.same_root
          (subst (λ (w : W). fs.exists (key_path layer.root key) w ≡ true) d.same_files here))
        (sym (stored-start start layer key d) ∙ gone)

  -- A load for a query, of which the answer may be relied on as that of the layer.
  record LoadsFor (layer : ModelStorageLayer W) (version_id : Text)
      (out : Result Text × ModelStorageLayer W) : Type 0 where
    sound : IsSound laws out.1
    same_files : out.1.files ≡ layer.files
    same_root : out.1.root ≡ layer.root
    answers :
        IsKey (cache_key model_name version_id)
        → IsClear laws layer (cache_key model_name version_id)
        → Answers laws layer (cache_key model_name version_id) (answered out.0)

  Answers-answer_of :
      (layer : ModelStorageLayer W) (key : Text) (a : LoadAnswer)
      → Answers laws layer key a
      → Answers laws layer key (answered (answer_of a))
  unfolding answer_of
  Answers-answer_of layer key (answered r) h = h
  Answers-answer_of layer key threw h = absurd h

  load_model-LoadsFor :
      (layer : ModelStorageLayer W) (version_id : Text)
      → IsSound laws layer
      → LoadsFor layer version_id (layer_storage.load_model model_name version_id layer)
  load_model-LoadsFor layer version_id s =
      let l = load_model-Loads laws layer model_name version_id s in
      record {
        sound = l.sound;
        same_files = l.same_files;
        same_root = l.same_root;
        answers = λ k clear.
            Answers-answer_of layer (cache_key model_name version_id)
              (load_model model_name version_id layer).0 (l.answers k clear);
      }

  load-During :
      (start layer after : ModelStorageLayer W) (version_id : Text) (answer : Result Text)
      → During start layer
      → layer_storage.load_model model_name version_id layer ≡ (answer, after)
      → During start after
        × (IsKey (cache_key model_name version_id)
            → IsClear laws start (cache_key model_name version_id)
            → Answers laws start (cache_key model_name version_id) (answered answer))
  load-During start layer after version_id answer d e =
      let l = subst (LoadsFor layer version_id) e (load_model-LoadsFor layer version_id d.sound) in
      (
        record {
          sound = l.sound;
          same_files = l.same_files ∙ d.same_files;
          same_root = l.same_root ∙ d.same_root;
        },
        λ k clear.
            Answers-start start layer version_id answer d
              (l.answers k (IsClear-start start layer (cache_key model_name version_id) d clear)),
      )

  module _ {F : Type 0} (chain : ModelVersionChain F) where
    FirstLoad-OnDisk :
        (start layer : ModelStorageLayer W) (vs : List (ModelVersion F)) (v : ModelVersion F)
        (loaded : Text)
        → During start layer
        → FirstLoad layer_storage chain model_name vs layer v loaded
        → Found start v.version_id loaded
    unfolding Found
    FirstLoad-OnDisk start layer _ v loaded d (Query.here _ vs _ after _ e) =
        (load-During start layer after v.version_id (ok loaded) d e).1
    FirstLoad-OnDisk start layer _ v loaded d (Query.there w vs _ after e _ _ eq first) =
        FirstLoad-OnDisk start after vs v loaded
          (load-During start layer after w.version_id (err e) d eq).0 first

    Missed-During :
        (start layer : ModelStorageLayer W) (version_id : Text)
        → During start start
        → Missed layer_storage chain model_name version_id start layer
        → During start layer
    Missed-During start layer version_id d (inl (e, missing, same)) =
        subst (During start) (sym same) d
    Missed-During start layer version_id d (inr (v, found, (e, eq))) =
        (load-During start start layer version_id (err e) d eq).0

    -- What a query returns is on the disk, for plain names.
    Returns : ModelStorageLayer W → Result (TimeTravelResult F) → Type 0
    Returns start (err e) = Unit
    Returns start (ok r) = Found start r.version.version_id r.payload

    Answers-Returns :
        (start : ModelStorageLayer W) (version_id : Text) (out : Result (TimeTravelResult F))
        → Invariant.IsSound chain
        → During start start
        → Query.Answers layer_storage chain model_name version_id start out
        → Returns start out
    unfolding Returns Found
    Answers-Returns start version_id _ sound d (Query.exact v loaded after got e) =
        subst (λ id. Found start id loaded)
          (sym (sound.placed version_id v (found_of_get_version chain version_id v got)).own_id)
          (load-During start start after version_id (ok loaded) d e).1
    Answers-Returns start version_id _ sound d
          (Query.nearest t listed v loaded missed e first held) =
        FirstLoad-OnDisk start t listed v loaded (Missed-During start t version_id d missed) first
    Answers-Returns start version_id _ sound d (Query.unavailable t listed e missed l none code) =
        tt

    -- A query of a model with a plain name over the storage layer, on a well-formed chain, and after any
    -- calls of the layer, of which save_checkpoint and atomic_write had plain names of models and plain
    -- version ids and no save_checkpoint stopped in the middle of its file: the data that it returns
    -- are those that the disk holds for the version that it returns, whether this is the version that
    -- was asked for or another one, if the id of that version is plain and nothing but a regular file is
    -- at the path of its checkpoint. The id that is asked for is not empty.
    pub query_as_of-OnDisk :
        (start : ModelStorageLayer W) (version_id : Text) (r : TimeTravelResult F)
        → Reached laws F start
        → Invariant.IsSound chain
        → IsName model_name
        → version_id ≢ []
        → (query_as_of layer_storage chain model_name version_id start).0 ≡ ok r
        → is_plain r.version.version_id ≡ true
        → IsClear laws start (cache_key model_name r.version.version_id)
        → OnDisk start r.version.version_id r.payload
    unfolding Returns Found
    query_as_of-OnDisk start version_id r reached sound named given e plain clear =
        subst (Returns start) e
          (Answers-Returns start version_id _ sound
            (record {
              sound = Reached-IsSound laws start reached;
              same_files = refl;
              same_root = refl;
            })
            (query_as_of-Answers layer_storage chain model_name sound version_id start
              (name-nonempty model_name named) given))
          (names-IsKey model_name r.version.version_id named plain) clear
