-- ===== src/Version/Extend.antt =====
-- A well-formed chain with one more version.
use synthgen_core.Prelude.{
  ℕ, suc, ◌^◌, ◌<◌, ◌≤◌, Text, text_eq, text_eq_iff, text_eq_refl, text_mem, text_mem-append, true,
  ◌≡◌, ◌≢◌, refl, sym, ◌∙◌, Option, none, some, List, [], ◌∷◌, ◌++◌, ◌⊎◌, inl, inr, arith, All,
  All-map, All-append, Option-cases, Bool-cases, if◌then◌else◌, subst,
}
use synthgen_core.Prelude.Dict.{find, find-insert}
use synthgen_core.Version.{ModelVersion, ModelVersionChain, push_version, store}
use synthgen_core.Version.Ids.{IsTicket}
use synthgen_core.Version.Invariant.{HasParent, IsPlaced, Listed, IsSound}
use synthgen_core.Version.Create.{IsParent}

module _ {F : Type 0} (chain : ModelVersionChain F) (sound : IsSound chain)
    (room : chain.counter < 2 ^ 64) (vid : Text) (v : ModelVersion F)
    (ticket : IsTicket chain.counter vid) (new : find vid chain.versions ≡ none)
    (own : v.version_id ≡ vid) (named : v.model_name ≢ []) (immutable : v.is_immutable ≡ true)
    (parent : IsParent chain v.model_name v.parent_version_id) where
  -- The chain with the new version.
  abbrev pub after : ModelVersionChain F
  after = store vid v (record chain { counter = suc chain.counter })

  pub find-old :
      (id : Text) (w : ModelVersion F)
      → find id chain.versions ≡ some w
      → find id after.versions ≡ some w
  unfolding store
  find-old id w e = ground (arith, find-insert vid id v chain.versions, text_eq_iff vid id)

  old_or_new :
      (id : Text) (w : ModelVersion F)
      → find id after.versions ≡ some w
      → ((id ≡ vid) × (w ≡ v)) ⊎ (find id chain.versions ≡ some w)
  unfolding store
  old_or_new id w e = elim (Bool-cases (text_eq vid id)) [
    | inl same ↦
        let eq : some v ≡ some w = sym (rw same at (find-insert vid id v chain.versions)) ∙ e in
        inl (sym ((text_eq_iff vid id).0 same), cc)
    | inr other ↦ inr (sym (rw other at (find-insert vid id v chain.versions)) ∙ e)
  ]

  HasParent-old :
      (k : ℕ) (model_name p : Text)
      → HasParent chain.versions k model_name p
      → HasParent after.versions k model_name p
  HasParent-old k model_name p (inl e) = inl e
  HasParent-old k model_name p (inr (j, q, lt, t, e, same)) =
      inr (j, q, lt, t, find-old p q e, same)

  IsPlaced-old : (id : Text) (w : ModelVersion F) → IsPlaced chain id w → IsPlaced after id w
  unfolding store
  IsPlaced-old id w h = record {
    ticket = h.ticket;
    issued = omega (arith, h.issued);
    id_ticket = h.id_ticket;
    own_id = h.own_id;
    named = h.named;
    immutable = h.immutable;
    parent = HasParent-old h.ticket w.model_name w.parent_version_id h.parent;
  }

  HasParent-new :
      (p : Text)
      → IsParent chain v.model_name p
      → HasParent after.versions chain.counter v.model_name p
  HasParent-new p (inl e) = inl e
  HasParent-new p (inr (q, e, same)) =
      let place = sound.placed p q e in
      inr (place.ticket, q, place.issued, place.id_ticket, find-old p q e, same)

  IsPlaced-new : IsPlaced after vid v
  unfolding store
  IsPlaced-new = record {
    ticket = chain.counter;
    issued = omega arith;
    id_ticket = ticket;
    own_id = own;
    named = named;
    immutable = immutable;
    parent = HasParent-new v.parent_version_id parent;
  }

  Listed-old : (model_name id : Text) → Listed chain model_name id → Listed after model_name id
  Listed-old model_name id (w, e, same) = (w, find-old id w e, same)

  Listed-new : Listed after v.model_name vid
  unfolding store
  Listed-new = (v, ground (arith, find-insert vid vid v chain.versions, text_eq_iff vid vid), refl)

  -- The ids of the model after the call.
  abbrev pushed : Option (List Text) → List Text
  pushed none = vid ∷ []
  pushed (some ids) = ids ++ vid ∷ []

  find-push_version :
      (m : Text)
      → find m after.model_versions ≡ (
          if text_eq v.model_name m
          then some (pushed (find v.model_name chain.model_versions))
          else find m chain.model_versions)
  unfolding store push_version
  find-push_version m = elim (Option-cases (find v.model_name chain.model_versions)) [
    | inl e ↦ rw e (find-insert v.model_name m (vid ∷ []) chain.model_versions)
    | inr (ids, e) ↦ rw e (find-insert v.model_name m (ids ++ vid ∷ []) chain.model_versions)
  ]

  pushed-Listed :
      (old : Option (List Text))
      → find v.model_name chain.model_versions ≡ old
      → All (Listed after v.model_name) (pushed old)
  pushed-Listed none e = (Listed-new, tt)
  pushed-Listed (some ids) e =
      All-append (Listed after v.model_name) ids (vid ∷ [])
        (All-map (Listed-old v.model_name) ids (sound.listed v.model_name ids e)) (Listed-new, tt)

  Listed-after :
      (m : Text) (ids : List Text)
      → find m after.model_versions ≡ some ids
      → All (Listed after m) ids
  Listed-after m ids e = elim (Bool-cases (text_eq v.model_name m)) [
    | inl same ↦
        let name : v.model_name ≡ m = (text_eq_iff v.model_name m).0 same in
        let found = rw same at (find-push_version m) in
        let list : pushed (find v.model_name chain.model_versions) ≡ ids = cc in
        subst (λ n. All (Listed after n) ids) name
          (subst (All (Listed after v.model_name)) list
            (pushed-Listed (find v.model_name chain.model_versions) refl))
    | inr other ↦
        All-map (Listed-old m) ids
          (sound.listed m ids (sym (rw other at (find-push_version m)) ∙ e))
  ]

  mem-pushed : (old : Option (List Text)) → text_mem vid (pushed old) ≡ true
  unfolding text_mem
  mem-pushed none = ground (arith, text_eq_iff vid vid)
  mem-pushed (some ids) = ground (arith, text_mem-append vid ids (vid ∷ []), text_eq_iff vid vid)

  -- The index of a model keeps the ids that it lists.
  index-old :
      (m id : Text) (ids : List Text)
      → find m chain.model_versions ≡ some ids
      → text_mem id ids ≡ true
      → (more : List Text) × (find m after.model_versions ≡ some more) × (text_mem id more ≡ true)
  unfolding text_mem
  index-old m id ids e mem = elim (Bool-cases (text_eq v.model_name m)) [
    | inl same ↦
        let name : v.model_name ≡ m = (text_eq_iff v.model_name m).0 same in
        let old : find v.model_name chain.model_versions ≡ some ids = rw name e in
        (
          ids ++ vid ∷ [],
          rw old at (rw same at (find-push_version m)),
          ground (arith, text_mem-append id ids (vid ∷ [])),
        )
    | inr other ↦ (ids, rw other at (find-push_version m) ∙ e, mem)
  ]

  indexed_after :
      (id : Text) (w : ModelVersion F)
      → find id after.versions ≡ some w
      → (ids : List Text) × (find w.model_name after.model_versions ≡ some ids)
        × (text_mem id ids ≡ true)
  indexed_after id w e = at (old_or_new id w e)
    where
      at :
          ((id ≡ vid) × (w ≡ v)) ⊎ (find id chain.versions ≡ some w)
          → (ids : List Text) × (find w.model_name after.model_versions ≡ some ids)
            × (text_mem id ids ≡ true)
      at (inl (same, eq)) =
          rw (same, eq)
            (
              pushed (find v.model_name chain.model_versions),
              rw (text_eq_refl v.model_name) at (find-push_version v.model_name),
              mem-pushed (find v.model_name chain.model_versions),
            )
      at (inr old) =
          let (ids, found, mem) = sound.indexed id w old in index-old w.model_name id ids found mem

  IsPlaced-after :
      (id : Text) (w : ModelVersion F) → find id after.versions ≡ some w → IsPlaced after id w
  IsPlaced-after id w e = at (old_or_new id w e)
    where
      at : ((id ≡ vid) × (w ≡ v)) ⊎ (find id chain.versions ≡ some w) → IsPlaced after id w
      at (inl (same, eq)) =
          subst (λ i. IsPlaced after i w) (sym same)
            (subst (IsPlaced after vid) (sym eq) IsPlaced-new)
      at (inr old) = IsPlaced-old id w (sound.placed id w old)

  pub after-IsSound : IsSound after
  after-IsSound = record {
    counted = counter_bound;
    placed = IsPlaced-after;
    listed = Listed-after;
    indexed = indexed_after;
  }
    where
      counter_bound : after.counter ≤ 2 ^ 64
      counter_bound = unfold store in omega arith
