-- ===== src/Version/Invariant.antt =====
-- The well-formed chains: every parent is an earlier version of the same model, and the index of
-- each model holds its versions.
use synthgen_core.Prelude.{
  ℕ, zero, suc, ◌^◌, ◌<◌, ◌≤◌, Text, text_eq_iff, text_mem, Bool, true, false, ◌≡◌, ◌≢◌, sym, ◌∙◌,
  some, List, [], ◌∷◌, ◌⊎◌, inl, inr, arith, All, All-map, length,
}
use synthgen_core.Prelude.Dict.{Dict, find}
use synthgen_core.Version.{ModelVersion, ModelVersionChain, init, walk, has_cycle}
use synthgen_core.Version.Ids.{
  IsTicket, TicketFrom, IsTicket-injective, IsTicket-ne-nil, text_mem-TicketFrom,
}
use synthgen_core.Version.Walk.{walk-up, has_cycle-walk}

TicketFrom-mono : (b k : ℕ) (id : Text) → k ≤ b → TicketFrom b id → TicketFrom k id
TicketFrom-mono b k id h (j, at, w, t) = (j, omega arith, w, t)

module _ {F : Type 0} where
  -- The parent is none, or a version of the model whose id was made before the counter `k`.
  abbrev pub HasParent : Dict (ModelVersion F) → ℕ → Text → Text → Type 0
  HasParent m k model_name parent =
      (parent ≡ [])
      ⊎ ((j : ℕ) × (p : ModelVersion F) × (j < k)
          × IsTicket j parent
          × (find parent m ≡ some p)
          × (p.model_name ≡ model_name))

  pub record IsPlaced (chain : ModelVersionChain F) (id : Text) (v : ModelVersion F) : Type 0 where
    pub ticket : ℕ
    pub issued : ticket < chain.counter
    pub id_ticket : IsTicket ticket id
    pub own_id : v.version_id ≡ id
    pub named : v.model_name ≢ []
    pub immutable : v.is_immutable ≡ true
    pub parent : HasParent chain.versions ticket v.model_name v.parent_version_id

  -- An id that the index lists under a model.
  abbrev pub Listed : ModelVersionChain F → Text → Text → Type 0
  Listed chain model_name id =
      (v : ModelVersion F) × (find id chain.versions ≡ some v) × (v.model_name ≡ model_name)

  pub record IsSound (chain : ModelVersionChain F) : Type 0 where
    pub counted : chain.counter ≤ 2 ^ 64
    pub placed :
        (id : Text) (v : ModelVersion F) → find id chain.versions ≡ some v → IsPlaced chain id v
    pub listed :
        (model_name : Text) (ids : List Text)
        → find model_name chain.model_versions ≡ some ids
        → All (Listed chain model_name) ids
    pub indexed :
        (id : Text) (v : ModelVersion F)
        → find id chain.versions ≡ some v
        → (ids : List Text) × (find v.model_name chain.model_versions ≡ some ids)
          × (text_mem id ids ≡ true)

  pub init-IsSound : IsSound init
  unfolding init find
  init-IsSound = record {
    counted = omega arith;
    placed = λ id v e. cc;
    listed = λ m ids e. cc;
    indexed = λ id v e. cc;
  }

  -- Where a walk upwards stands: at no version, or at one whose id was made before `b`.
  abbrev Standing : Dict (ModelVersion F) → ℕ → Text → Type 0
  Standing m b current =
      (current ≡ [])
      ⊎ ((k : ℕ) × (v : ModelVersion F) × (k < b) × IsTicket k current × (find current m ≡ some v))

  HasParent-Standing :
      (m : Dict (ModelVersion F)) (k : ℕ) (model_name parent : Text)
      → HasParent m k model_name parent
      → Standing m k parent
  HasParent-Standing m k model_name parent (inl e) = inl e
  HasParent-Standing m k model_name parent (inr (j, p, h, t, e, same)) = inr (j, p, h, t, e)

module _ {F : Type 0} (chain : ModelVersionChain F) (sound : IsSound chain) where
  walk-eq-false :
      (n : ℕ) (new_id : Text)
      → IsTicket n new_id
      → chain.counter ≤ n
      → n < 2 ^ 64
      → (f b : ℕ) (visited : List Text) (current : Text) (answer : Bool) → b ≤ chain.counter
      → Standing chain.versions b current
      → All (TicketFrom b) visited
      → walk f chain.versions new_id visited current ≡ some answer
      → answer ≡ false
  unfolding walk
  walk-eq-false n new_id fresh from bound zero b visited current answer le at seen e = cc
  walk-eq-false n new_id fresh from bound (suc f) b visited current answer le (inl empty) seen e =
      ground (arith, text_eq_iff current [])
  walk-eq-false n new_id fresh from bound (suc f) b visited current answer le
        (inr (k, v, lt, t, here)) seen e =
      walk-eq-false n new_id fresh from bound f place.ticket (current ∷ visited) v.parent_version_id
        answer (omega (arith, place.issued))
        (HasParent-Standing chain.versions place.ticket v.model_name v.parent_version_id
          place.parent)
        (
          (place.ticket, omega arith, omega (arith, sound.counted, place.issued), place.id_ticket),
          All-map {P = TicketFrom b} {Q = TicketFrom place.ticket}
              (λ id. TicketFrom-mono b place.ticket id (omega (arith, same))) visited seen,
        )
        (sym (
            walk-up f chain.versions new_id visited current v here (IsTicket-ne-nil k current t)
              other unseen)
          ∙ e)
    where
      place : IsPlaced chain current v
      place = sound.placed current v here

      same : place.ticket ≡ k
      same =
          IsTicket-injective place.ticket k current (omega (arith, sound.counted, place.issued))
            (omega (arith, sound.counted)) place.id_ticket t

      other : current ≢ new_id
      other eq =
          let clash =
            IsTicket-injective k n current (omega (arith, sound.counted)) bound t
              (fresh.0, fresh.1, eq ∙ fresh.2) in
          omega arith

      unseen : text_mem current visited ≡ false
      unseen = text_mem-TicketFrom b k current visited lt (omega (arith, sound.counted)) t seen

  -- On a well-formed chain `has_cycle` answers no for a new id and any parent that is none or
  -- stands in the chain.
  pub has_cycle-eq-false :
      (n : ℕ) (new_id parent_id : Text)
      → IsTicket n new_id
      → chain.counter ≤ n
      → n < 2 ^ 64
      → ((parent_id ≡ []) ⊎ ((p : ModelVersion F) × (find parent_id chain.versions ≡ some p)))
      → has_cycle chain new_id parent_id ≡ false
  has_cycle-eq-false n new_id parent_id fresh from bound parent =
      let (b, ends, answer) = has_cycle-walk chain new_id parent_id in
      answer
      ∙ walk-eq-false n new_id fresh from bound (suc (length chain.versions)) chain.counter []
          parent_id b (omega arith) (standing parent) tt ends
    where
      standing :
          ((parent_id ≡ []) ⊎ ((p : ModelVersion F) × (find parent_id chain.versions ≡ some p)))
          → Standing chain.versions chain.counter parent_id
      standing (inl e) = inl e
      standing (inr (p, e)) =
          let place = sound.placed parent_id p e in
          inr (place.ticket, p, place.issued, place.id_ticket, e)
