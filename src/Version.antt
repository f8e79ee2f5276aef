-- ===== src/Version.antt =====
-- storage/version/model_version.h, model_version_chain.h and model_version_chain.cpp: the chain of
-- model versions. The clocks and the random numbers are arguments; the counter in
-- `generate_version_id` is a field of the state. A call returns its result and the chain after it.
mod Ids
mod Walk
pub mod Invariant
pub mod Create
mod Extend
pub mod Keeps
pub mod Listing
mod Examples
use synthgen_core.Prelude.{
  ℕ, zero, suc, ◌+◌, ◌%◌, ◌^◌, Text, text, text_eq, text_mem, Bool, true, false, not, Option, none,
  some, List, [], ◌∷◌, ◌++◌, length, ltb, take, if◌then◌else◌,
}
use synthgen_core.Prelude.Dict.{Dict, find, insert}
use synthgen_core.Prelude.Hex.{to_hex}
use synthgen_core.Prelude.Int.{ℤ}
use synthgen_core.Prelude.Sort.{sort_by}
use synthgen_core.Common.Result.{
  Result, ok, err, fail, invalid_argument, parent_not_found, version_chain_cycle, version_not_found,
  immutable_violation,
}

pub record ModelVersion (F : Type 0) : Type 0 where
  pub version_id : Text
  pub model_name : Text
  pub parent_version_id : Text
  pub created_at : ℕ
  pub created_by : Text
  pub is_immutable : Bool
  pub training_data_range : Text
  pub fidelity_score : F
  pub training_rows : ℤ
  pub custom_metadata : Dict Text

pub record ModelVersionChain (F : Type 0) : Type 0 where
  pub versions : Dict (ModelVersion F)
  pub model_versions : Dict (List Text)
  -- the static `counter` of generate_version_id, before it wraps: the process has one for all its
  -- chains, and here a chain is the only one
  pub counter : ℕ

-- What a call reads from the machine: the two clocks and a random number.
pub record Reading : Type 0 where
  pub system_ticks : ℕ
  pub steady_us : ℕ
  pub random : ℕ

-- "mv_" << std::hex << ts << "_" << cnt << "_" << rand_val
unfoldable pub version_id_text : ℕ → ℕ → ℕ → Text
version_id_text ts cnt rand =
    text "mv_" ++ (to_hex ts ++ (text "_" ++ (to_hex cnt ++ (text "_" ++ to_hex rand))))

-- model_versions_[model_name].push_back(vid)
unfoldable pub push_version : Text → Text → Dict (List Text) → Dict (List Text)
push_version model_name vid index =
    insert model_name
      (elim (find model_name index) [ none ↦ vid ∷ [] | some ids ↦ ids ++ vid ∷ [] ]) index

module _ {F : Type 0} where
  unfoldable pub init : ModelVersionChain F
  init = record { versions = []; model_versions = []; counter = 0 }

  abbrev pub is_first_version : ModelVersion F → Bool
  is_first_version v = text_eq v.parent_version_id []

  unfoldable pub generate_version_id : Reading → ModelVersionChain F → Text × ModelVersionChain F
  generate_version_id now chain = (
    version_id_text now.system_ticks (chain.counter % 2 ^ 64) now.random,
    record chain { counter = suc chain.counter },
  )

  -- the loop of `has_cycle`; `none` means that the fuel ran out
  unfoldable pub walk : ℕ → Dict (ModelVersion F) → Text → List Text → Text → Option Bool
  walk zero versions new_id visited current = none
  walk (suc f) versions new_id visited current =
      let up : Option Bool = elim (find current versions) [
        | none ↦ some false
        | some v ↦ walk f versions new_id (current ∷ visited) v.parent_version_id
      ] in
      if text_eq current []
      then some false
      else if text_eq current new_id
      then some true
      else if text_mem current visited
      then some true
      else up

  -- One round for each version and one more are enough.
  unfoldable pub has_cycle : ModelVersionChain F → Text → Text → Bool
  has_cycle chain new_id parent_id =
      elim (walk (suc (length chain.versions)) chain.versions new_id [] parent_id) [
        | none ↦ true
        | some b ↦ b
      ]

  -- the tests that `create_version` makes before it generates an id
  unfoldable pub check_parent : ModelVersionChain F → Text → Text → Result (Unit {0})
  check_parent chain model_name parent_version_id =
      if text_eq model_name []
      then fail invalid_argument (text "model_name must not be empty") (text "version")
      else if text_eq parent_version_id []
      then ok tt
      else elim (find parent_version_id chain.versions) [
        | none ↦
            fail parent_not_found (text "parent version not found: " ++ parent_version_id)
              (text "version")
        | some p ↦
            if not (text_eq p.model_name model_name)
            then fail invalid_argument (text "parent version belongs to different model")
                (text "version")
            else ok tt
      ]

  unfoldable pub new_version : Text → Text → Text → ModelVersion F → ℕ → ModelVersion F
  new_version vid model_name parent_version_id metadata now = record {
    version_id = vid;
    model_name = model_name;
    parent_version_id = parent_version_id;
    created_at = now;
    created_by = if text_eq metadata.created_by [] then text "user" else metadata.created_by;
    is_immutable = true;
    training_data_range = metadata.training_data_range;
    fidelity_score = metadata.fidelity_score;
    training_rows = metadata.training_rows;
    custom_metadata = metadata.custom_metadata;
  }

  unfoldable pub store : Text → ModelVersion F → ModelVersionChain F → ModelVersionChain F
  unfolding push_version
  store vid v chain = record chain {
    versions = insert vid v chain.versions;
    model_versions = push_version v.model_name vid chain.model_versions;
  }

  unfoldable pub create_version :
      Text
      → Text
      → ModelVersion F
      → Reading
      → ModelVersionChain F
      → Result (ModelVersion F) × ModelVersionChain F
  create_version model_name parent_version_id metadata now chain =
      elim (check_parent chain model_name parent_version_id) [
        | err e ↦ (Result.err e, chain)
        | ok _ ↦
            let (vid, counted) = generate_version_id now chain in
            let v = new_version vid model_name parent_version_id metadata now.steady_us in
            if has_cycle counted vid parent_version_id
            then (
              fail version_chain_cycle (text "adding this version would create a cycle")
                  (text "version"),
              counted,
            )
            else (ok v, store vid v counted)
      ]

  unfoldable pub get_version : ModelVersionChain F → Text → Result (ModelVersion F)
  get_version chain version_id = elim (find version_id chain.versions) [
    | none ↦ fail version_not_found (text "version not found: " ++ version_id) (text "version")
    | some v ↦ ok v
  ]

  -- the versions of the ids that are found, in the order of the ids
  unfoldable pub lookup_all : Dict (ModelVersion F) → List Text → List (ModelVersion F)
  lookup_all versions [] = []
  lookup_all versions (vid ∷ vids) =
      let rest = lookup_all versions vids in
      elim (find vid versions) [ none ↦ rest | some v ↦ v ∷ rest ]

  -- a.created_at > b.created_at
  abbrev pub newer : ModelVersion F → ModelVersion F → Bool
  newer a b = ltb b.created_at a.created_at

  -- The limit, an `int`, is not negative (the callers pass 100 and 100000): with a negative one and a
  -- version to list the code throws, and that is not modelled.
  unfoldable pub list_versions : ModelVersionChain F → Text → ℕ → Result (List (ModelVersion F))
  unfolding lookup_all
  list_versions chain model_name limit = elim (find model_name chain.model_versions) [
    | none ↦ ok []
    | some ids ↦
        let result = sort_by newer (lookup_all chain.versions ids) in
        ok (if ltb limit (length result) then take limit result else result)
  ]

  unfoldable pub modify_version : ModelVersionChain F → Text → Result (Unit {0})
  modify_version chain version_id =
      fail immutable_violation (text "model versions are immutable and cannot be modified")
        (text "version")
