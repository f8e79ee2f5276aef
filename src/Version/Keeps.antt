-- ===== src/Version/Keeps.antt =====
-- Sequences of calls on the chain, and what a call leaves as it was.
use synthgen_core.Prelude.{
  ℕ, zero, suc, ◌+◌, ◌^◌, ◌<◌, ◌≤◌, Text, ◌≡◌, ◌≢◌, refl, none, some, List, [], ◌∷◌, ◌⊎◌, inl, inr,
  arith, Option-cases, length,
}
use synthgen_core.Prelude.Dict.{Dict, find}
use synthgen_core.Common.Result.{ok}
use synthgen_core.Version.{
  ModelVersion, ModelVersionChain, Reading, init, generate_version_id, new_version, store,
  create_version, get_version,
}
use synthgen_core.Version.Ids.{IsTicket-injective}
use synthgen_core.Version.Invariant.{HasParent, IsPlaced, IsSound, init-IsSound}
use synthgen_core.Version.Extend.{find-old, after-IsSound}
use synthgen_core.Version.Create.{
  IsParent, created, extended, create_version_lem, vid-IsTicket, find-vid,
}

-- A call of `create_version` with what it reads from the machine.
pub record Call (F : Type 0) : Type 0 where
  pub model_name : Text
  pub parent : Text
  pub metadata : ModelVersion F
  pub now : Reading

module _ {F : Type 0} where
  unfoldable pub perform : ModelVersionChain F → Call F → ModelVersionChain F
  perform chain c = (create_version c.model_name c.parent c.metadata c.now chain).1

  unfoldable pub run : ModelVersionChain F → List (Call F) → ModelVersionChain F
  run chain [] = chain
  run chain (c ∷ calls) = run (perform chain c) calls

  -- What a call does to a well-formed chain.
  pub record IsStep (before next : ModelVersionChain F) : Type 0 where
    pub sound : IsSound next
    pub kept :
        (id : Text) (v : ModelVersion F) → get_version before id ≡ ok v → get_version next id ≡ ok v
    pub counted : next.counter ≤ suc before.counter

  pub perform-IsStep :
      (chain : ModelVersionChain F) (c : Call F)
      → IsSound chain
      → chain.counter < 2 ^ 64
      → IsStep chain (perform chain c)
  unfolding perform new_version generate_version_id get_version
  perform-IsStep chain c sound room =
      elim (create_version_lem chain sound room c.model_name c.parent c.metadata c.now) [
        | inr (_, (e, same)) ↦
            rw (same, perform)
              (record { sound = sound; kept = λ id v got. got; counted = omega arith })
        | inl (named, parent, same) ↦ rw (same, perform) (stored named parent)
      ]
    where
      vid : Text
      vid = (generate_version_id c.now chain).0

      v : ModelVersion F
      v = created chain sound room c.model_name c.parent c.metadata c.now

      got_after :
          (id : Text) (w : ModelVersion F)
          → (find id chain.versions ≡ some w
              → find id (store vid v (record chain { counter = suc chain.counter })).versions
                ≡ some w)
          → get_version chain id ≡ ok w
          → get_version (store vid v (record chain { counter = suc chain.counter })) id ≡ ok w
      got_after id w up got = ground (arith, up)

      counter_after :
          (store vid v (record chain { counter = suc chain.counter })).counter ≤ suc chain.counter
      counter_after = unfold store in omega arith

      stored :
          c.model_name ≢ []
          → IsParent chain c.model_name c.parent
          → IsStep chain (extended chain sound room c.model_name c.parent c.metadata c.now)
      stored named parent =
          let ticket = vid-IsTicket chain sound room c.now in
          let new = find-vid chain sound room c.now in
          record {
            sound = after-IsSound chain sound room vid v ticket new refl named refl parent;
            kept = λ id w got.
                got_after id w
                  (find-old chain sound room vid v ticket new refl named refl parent id w) got;
            counted = counter_after;
          }

  pub run-IsStep :
      (chain : ModelVersionChain F) (calls : List (Call F))
      → IsSound chain
      → chain.counter + length calls ≤ 2 ^ 64
      → IsSound (run chain calls)
        × ((id : Text) (v : ModelVersion F)
            → get_version chain id ≡ ok v
            → get_version (run chain calls) id ≡ ok v)
  unfolding run
  run-IsStep chain [] sound room = (sound, λ id v got. got)
  run-IsStep chain (c ∷ calls) sound room =
      let step = perform-IsStep chain c sound (omega arith) in
      let (kept_sound, kept) =
        run-IsStep (perform chain c) calls step.sound (omega (arith, step.counted)) in
      (kept_sound, λ id v got. kept id v (step.kept id v got))

  -- After any calls of `create_version` on a new chain, at most 2^64 of them, those that fail
  -- included: every version stands under its own id, belongs to a named model, is immutable, and
  -- has no parent or one of the same model with an id made before; and the index of a model holds
  -- versions of the model only, and all of them.
  pub run-init-IsSound : (calls : List (Call F)) → length calls ≤ 2 ^ 64 → IsSound (run init calls)
  unfolding init
  run-init-IsSound calls room = (run-IsStep init calls init-IsSound (omega (arith, room))).0

  -- Whatever calls follow on a well-formed chain, as long as the counter does not wrap, a version
  -- that could be read is read unchanged.
  pub get_version-run :
      (chain : ModelVersionChain F) (calls : List (Call F)) (id : Text) (v : ModelVersion F)
      → IsSound chain
      → chain.counter + length calls ≤ 2 ^ 64
      → get_version chain id ≡ ok v
      → get_version (run chain calls) id ≡ ok v
  get_version-run chain calls id v sound room got = (run-IsStep chain calls sound room).1 id v got

-- Following the parents from an id leads to a version without one.
pub data Rooted {F : Type 0} (m : Dict (ModelVersion F)) : Text → Type 0 where
  root :
      (id : Text) (v : ModelVersion F) → find id m ≡ some v → v.parent_version_id ≡ [] → Rooted m id
  child :
      (id : Text) (v : ModelVersion F)
      → find id m ≡ some v
      → Rooted m v.parent_version_id
      → Rooted m id

module _ {F : Type 0} (chain : ModelVersionChain F) (sound : IsSound chain) where
  Rooted-below :
      (n : ℕ) (id : Text) (v : ModelVersion F) (e : find id chain.versions ≡ some v)
      → (sound.placed id v e).ticket < n
      → Rooted chain.versions id
  Rooted-below zero id v e h = absurd (omega arith)
  Rooted-below (suc n) id v e h =
      at (Rooted-below n v.parent_version_id) (sound.placed id v e).parent
    where
      place : IsPlaced chain id v
      place = sound.placed id v e

      at :
          ((p : ModelVersion F) (f : find v.parent_version_id chain.versions ≡ some p)
            → (sound.placed v.parent_version_id p f).ticket < n
            → Rooted chain.versions v.parent_version_id)
          → HasParent chain.versions place.ticket v.model_name v.parent_version_id
          → Rooted chain.versions id
      at ih (inl orphan) = root id v e orphan
      at ih (inr (j, p, lt, t, f, same)) =
          let above = sound.placed v.parent_version_id p f in
          let ticket =
            IsTicket-injective above.ticket j v.parent_version_id
              (omega (arith, above.issued, sound.counted))
              (omega (arith, place.issued, sound.counted)) above.id_ticket t in
          child id v e (ih p f (omega (arith, h)))

  -- On a well-formed chain the parents of every version lead, in finitely many steps, to a version
  -- without a parent: no version is among its own ancestors.
  pub get_version-Rooted :
      (id : Text) (v : ModelVersion F) → get_version chain id ≡ ok v → Rooted chain.versions id
  unfolding get_version
  get_version-Rooted id v got = at (Option-cases (find id chain.versions))
    where
      at :
          (find id chain.versions ≡ none)
            ⊎ ((w : ModelVersion F) × (find id chain.versions ≡ some w))
          → Rooted chain.versions id
      at (inl e) = absurd (ground arith)
      at (inr (w, e)) = Rooted-below (suc (sound.placed id w e).ticket) id w e (omega arith)
