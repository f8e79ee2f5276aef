-- ===== src/Version/Create.antt =====
-- `create_version` on a well-formed chain.
use synthgen_core.Prelude.{
  ◌^◌, ◌<◌, Text, text_eq_iff, false, ◌≡◌, ◌≢◌, refl, ◌∙◌, ap, none, some, [], ◌⊎◌, inl, inr, ◌↔◌,
  arith, Option-cases,
}
use synthgen_core.Prelude.Dict.{find}
use synthgen_core.Common.Result.{Result, Error, ok, err}
use synthgen_core.Version.{
  ModelVersion, ModelVersionChain, Reading, has_cycle, generate_version_id, check_parent,
  new_version, store, create_version,
}
use synthgen_core.Version.Ids.{IsTicket, IsTicket-injective}
use synthgen_core.Version.Invariant.{IsSound, has_cycle-eq-false}

module _ {F : Type 0} where
  -- The parent that a caller may name for a model.
  abbrev pub IsParent : ModelVersionChain F → Text → Text → Type 0
  IsParent chain model_name parent =
      (parent ≡ [])
      ⊎ ((p : ModelVersion F) × (find parent chain.versions ≡ some p) × (p.model_name ≡ model_name))

  -- Under a parent that is found.
  check_parent_found :
      (chain : ModelVersionChain F) (model_name parent : Text) (p : ModelVersion F)
      → find parent chain.versions ≡ some p
      → (check_parent chain model_name parent ≡ ok tt)
        ↔ ((model_name ≢ []) × ((parent ≡ []) ⊎ (p.model_name ≡ model_name)))
  unfolding check_parent
  check_parent_found chain model_name parent p e =
      ground (
        arith,
        text_eq_iff model_name [],
        text_eq_iff parent [],
        text_eq_iff p.model_name model_name,
      )

  check_parent_iff :
      (chain : ModelVersionChain F) (model_name parent : Text)
      → (check_parent chain model_name parent ≡ ok tt)
        ↔ ((model_name ≢ []) × IsParent chain model_name parent)
  unfolding check_parent
  check_parent_iff chain model_name parent = elim (Option-cases (find parent chain.versions)) [
    | inl e ↦ ground (arith, text_eq_iff model_name [], text_eq_iff parent [])
    | inr (p, e) ↦ (
      λ h.
          let (named, at) = (check_parent_found chain model_name parent p e).0 h in
          (named, known p e at),
      λ h. (check_parent_found chain model_name parent p e).1 (h.0, same p e h.1),
    )
  ]
    where
      known :
          (p : ModelVersion F)
          → find parent chain.versions ≡ some p
          → ((parent ≡ []) ⊎ (p.model_name ≡ model_name))
          → IsParent chain model_name parent
      known p e (inl empty) = inl empty
      known p e (inr at) = inr (p, e, at)

      same :
          (p : ModelVersion F)
          → find parent chain.versions ≡ some p
          → IsParent chain model_name parent
          → (parent ≡ []) ⊎ (p.model_name ≡ model_name)
      same p e (inl empty) = inl empty
      same p e (inr (q, f, at)) =
          let eq : p ≡ q = cc in inr (ap (λ (v : ModelVersion F). v.model_name) eq ∙ at)

module _ {F : Type 0} (chain : ModelVersionChain F) (sound : IsSound chain)
    (room : chain.counter < 2 ^ 64) where
  pub vid-IsTicket : (now : Reading) → IsTicket chain.counter (generate_version_id now chain).0
  unfolding generate_version_id
  vid-IsTicket now = (now.system_ticks, now.random, refl)

  -- A new id is not in use.
  pub find-vid : (now : Reading) → find (generate_version_id now chain).0 chain.versions ≡ none
  find-vid now = elim (Option-cases (find (generate_version_id now chain).0 chain.versions)) [
    | inl e ↦ e
    | inr (v, e) ↦ absurd (clash v e)
  ]
    where
      clash :
          (v : ModelVersion F) → find (generate_version_id now chain).0 chain.versions ≡ some v → ⊥
      clash v e =
          let place = sound.placed (generate_version_id now chain).0 v e in
          let same =
            IsTicket-injective place.ticket chain.counter (generate_version_id now chain).0
              (omega (arith, place.issued)) room place.id_ticket (vid-IsTicket now) in
          omega (arith, place.issued)

  no_cycle :
      (now : Reading) (model_name parent : Text)
      → IsParent chain model_name parent
      → has_cycle (generate_version_id now chain).1 (generate_version_id now chain).0 parent ≡ false
  unfolding has_cycle generate_version_id
  no_cycle now model_name parent at =
      has_cycle-eq-false chain sound chain.counter (generate_version_id now chain).0 parent
        (vid-IsTicket now) (omega arith) room (known at)
    where
      known :
          IsParent chain model_name parent
          → (parent ≡ []) ⊎ ((p : ModelVersion F) × (find parent chain.versions ≡ some p))
      known (inl e) = inl e
      known (inr (p, e, same)) = inr (p, e)

  -- The chain and the version that an accepted call leaves.
  abbrev pub created : Text → Text → ModelVersion F → Reading → ModelVersion F
  created model_name parent metadata now =
      new_version (generate_version_id now chain).0 model_name parent metadata now.steady_us

  abbrev pub extended : Text → Text → ModelVersion F → Reading → ModelVersionChain F
  extended model_name parent metadata now =
      store (generate_version_id now chain).0 (created model_name parent metadata now)
        (generate_version_id now chain).1

  create_version-accepts :
      (model_name parent : Text) (metadata : ModelVersion F) (now : Reading)
      → model_name ≢ []
      → IsParent chain model_name parent
      → create_version model_name parent metadata now chain
        ≡ (ok (created model_name parent metadata now), extended model_name parent metadata now)
  unfolding create_version
  create_version-accepts model_name parent metadata now named at = rw (
    (check_parent_iff chain model_name parent).1 (named, at),
    create_version,
    no_cycle now model_name parent at,
  )

  -- On a well-formed chain with a counter that has not wrapped, a call succeeds exactly if the
  -- model has a name and the parent is none or a version of that model; the test for a cycle then
  -- passes, and the version is stored. A call that fails leaves the chain as it was.
  pub create_version_lem :
      (model_name parent : Text) (metadata : ModelVersion F) (now : Reading)
      → ((model_name ≢ [])
          × IsParent chain model_name parent
          × (create_version model_name parent metadata now chain ≡ (
            ok (created model_name parent metadata now),
            extended model_name parent metadata now,
          )))
        ⊎ ((¬ ((model_name ≢ []) × IsParent chain model_name parent))
            × ((e : Error) × (create_version model_name parent metadata now chain
                  ≡ (err e, chain))))
  unfolding create_version
  create_version_lem model_name parent metadata now = at (check_parent chain model_name parent) refl
    where
      iff :
          (check_parent chain model_name parent ≡ ok tt)
          ↔ ((model_name ≢ []) × IsParent chain model_name parent)
      iff = check_parent_iff chain model_name parent

      at :
          (r : Result (Unit {0}))
          → check_parent chain model_name parent ≡ r
          → ((model_name ≢ [])
              × IsParent chain model_name parent
              × (create_version model_name parent metadata now chain ≡ (
                ok (created model_name parent metadata now),
                extended model_name parent metadata now,
              )))
            ⊎ ((¬ ((model_name ≢ []) × IsParent chain model_name parent))
                × ((e : Error) × (create_version model_name parent metadata now chain
                      ≡ (err e, chain))))
      at (ok _) e =
          let (named, parent_ok) = iff.0 e in
          inl (
            named,
            parent_ok,
            create_version-accepts model_name parent metadata now named parent_ok,
          )
      at (err error) e = inr ((λ h. absurd (refused h)), (error, rw (e, create_version)))
        where
          refused : (model_name ≢ []) × IsParent chain model_name parent → ⊥
          refused h = let accepted = iff.1 h in cc
