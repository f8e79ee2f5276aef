-- ===== src/Audit/Chain.antt =====
-- The chain that the records of the log form, and the calls on the log.
use synthgen_core.Prelude.{
  ℕ, Text, text, text_eq, text_eq_iff, true, false, ◌≡◌, refl, ◌↔◌, List, [], ◌∷◌, ◌++◌, arith, inl,
  inr, Bool-cases, if_rule, not,
}
use synthgen_core.Prelude.Dict.{Dict}
use synthgen_core.Common.Result.{ok}
use synthgen_core.Common.Hash.{Sha256}
use synthgen_core.Audit.{
  AuditRecord, AuditLog, content, init, back_or, compute_content_hash, compute_chain_hash, seal,
  create_genesis, append, check_links, verify_chain,
}

-- A call that changes the log, with the time at which it is made.
pub data Call : Type 0 where
  genesis : ℕ → Call
  appends : Text → Text → Dict Text → ℕ → Call

module _ (sha : Sha256) where
  -- The records follow a record whose chain hash is `prev`: each names its predecessor's chain
  -- hash, and its two hashes are those of its own content and of that link.
  abbrev pub Chained : Text → List AuditRecord → Type 0
  Chained prev [] = Unit
  Chained prev (r ∷ rest) =
      (r.prev_hash ≡ prev)
      × (r.content_hash ≡ compute_content_hash sha r)
      × (r.chain_hash ≡ compute_chain_hash sha r.prev_hash r.content_hash)
      × Chained r.chain_hash rest

  -- The chain hash at the end.
  abbrev pub end_hash : Text → List AuditRecord → Text
  end_hash prev [] = prev
  end_hash prev (r ∷ rest) = end_hash r.chain_hash rest

  unfoldable pub perform : AuditLog → Call → AuditLog
  perform log (genesis now) = (create_genesis sha now log).1
  perform log (appends operation actor metadata now) =
      (append sha operation actor metadata now log).1

  unfoldable pub run : AuditLog → List Call → AuditLog
  unfolding perform
  run log [] = log
  run log (c ∷ calls) = run (perform log c) calls

  check_links_iff :
      (r : AuditRecord) (rest : List AuditRecord)
      → (check_links sha r rest ≡ true) ↔ Chained r.chain_hash rest
  unfolding check_links
  check_links_iff r [] = (λ _. tt, λ _. refl)
  check_links_iff r (s ∷ rest) = ground (
    arith,
    check_links_iff s rest,
    text_eq_iff s.prev_hash r.chain_hash,
    text_eq_iff s.content_hash (compute_content_hash sha s),
    text_eq_iff s.chain_hash (compute_chain_hash sha s.prev_hash s.content_hash),
  )

  -- `verify_chain` answers true of a log exactly when its records after the first follow the
  -- first record's chain hash, each with the two hashes that its own content gives.
  pub verify_chain_iff :
      (log : AuditLog) (r : AuditRecord) (rest : List AuditRecord)
      → log.records ≡ r ∷ rest
      → (verify_chain sha log ≡ ok true) ↔ Chained r.chain_hash rest
  unfolding verify_chain
  verify_chain_iff log r rest e =
      rw e (λ h. (check_links_iff r rest).0 (cc), λ h. ok_true ((check_links_iff r rest).1 h))
    where
      ok_true : check_links sha r rest ≡ true → ◌≡◌ {A = _} (ok (check_links sha r rest)) (ok true)
      ok_true p = rw p

  Chained-append :
      (prev : Text) (rs ss : List AuditRecord)
      → Chained prev rs
      → Chained (end_hash prev rs) ss
      → Chained prev (rs ++ ss)
  Chained-append prev [] ss h k = k
  Chained-append prev (r ∷ rs) ss h k = (h.0, h.1, h.2, Chained-append r.chain_hash rs ss h.3 k)

  pub Chained-split :
      (prev : Text) (rs ss : List AuditRecord)
      → Chained prev (rs ++ ss)
      → Chained prev rs × Chained (end_hash prev rs) ss
  Chained-split prev [] ss h = (tt, h)
  Chained-split prev (r ∷ rs) ss h =
      let rest = Chained-split r.chain_hash rs ss h.3 in ((h.0, h.1, h.2, rest.0), rest.1)

  pub back_or-end_hash :
      (r : AuditRecord) (rest : List AuditRecord)
      → (back_or r rest).chain_hash ≡ end_hash r.chain_hash rest
  unfolding back_or
  back_or-end_hash r [] = refl
  back_or-end_hash r (s ∷ rest) = back_or-end_hash s rest

  seal-Chained : (prev : Text) (r : AuditRecord) → Chained prev (seal sha prev r ∷ [])
  unfolding seal compute_content_hash content
  seal-Chained prev r = (refl, refl, refl, tt)

  -- The whole log, its first record included, is chained from "0", and it has records exactly
  -- when the genesis record was made.
  pub record IsChained (log : AuditLog) : Type 0 where
    pub chained : Chained (text "0") log.records
    pub started :
        log.genesis_created ≡ true
        → (r : AuditRecord) × (rest : List AuditRecord) × (log.records ≡ r ∷ rest)
    pub unstarted : log.genesis_created ≡ false → log.records ≡ []

  init-IsChained : IsChained init
  init-IsChained = record { chained = tt; started = λ e. cc; unstarted = λ e. refl }

  -- The log after a call is chained.
  abbrev Leaves {ℓ} : {A : Type ℓ} → A × AuditLog → Type 0
  Leaves (a, log) = IsChained log

  snoc-nonempty :
      (rs : List AuditRecord) (s : AuditRecord)
      → (r : AuditRecord) × (rest : List AuditRecord) × (rs ++ s ∷ [] ≡ r ∷ rest)
  snoc-nonempty [] s = (s, [], refl)
  snoc-nonempty (r ∷ rs) s = (r, rs ++ s ∷ [], refl)

  create_genesis-IsChained :
      (now : ℕ) (log : AuditLog) → IsChained log → IsChained (create_genesis sha now log).1
  unfolding create_genesis
  create_genesis-IsChained now log h =
      if_rule Leaves log.genesis_created (λ e. h)
        λ e. rw (h.unstarted e) (record {
          chained = seal-Chained (text "0") _;
          started = λ _. (_, [], refl);
          unstarted = λ p. cc;
        })

  extend-Chained :
      (r : AuditRecord) (rest : List AuditRecord) (s : AuditRecord)
      → Chained (text "0") (r ∷ rest)
      → Chained (text "0") (r ∷ rest ++ seal sha (back_or r rest).chain_hash s ∷ [])
  extend-Chained r rest s h =
      Chained-append (text "0") (r ∷ rest) (seal sha (back_or r rest).chain_hash s ∷ []) h
        (rw (back_or-end_hash r rest) (seal-Chained (end_hash r.chain_hash rest) s))

  append-IsChained :
      (operation actor : Text) (metadata : Dict Text) (now : ℕ) (log : AuditLog)
      → IsChained log
      → IsChained (append sha operation actor metadata now log).1
  unfolding append back_or
  append-IsChained operation actor metadata now log h =
      if_rule Leaves (not log.genesis_created) (λ e. h)
        λ e.
          if_rule Leaves (text_eq operation []) (λ f. h)
            λ f.
              let created : log.genesis_created ≡ true = ground arith in
              let (r, rest, p) = h.started created in
              rw p (record {
                chained = extend-Chained r rest _ (rw p at h.chained);
                started = λ _. (r, _, refl);
                unstarted = λ q. absurd (not_created created q);
              })
    where
      not_created : log.genesis_created ≡ true → log.genesis_created ≡ false → ⊥
      not_created p q = cc

  pub perform-IsChained : (log : AuditLog) (c : Call) → IsChained log → IsChained (perform log c)
  unfolding perform
  perform-IsChained log (genesis now) h = create_genesis-IsChained now log h
  perform-IsChained log (appends operation actor metadata now) h =
      append-IsChained operation actor metadata now log h

  run-IsChained : (log : AuditLog) (calls : List Call) → IsChained log → IsChained (run log calls)
  unfolding run
  run-IsChained log [] h = h
  run-IsChained log (c ∷ calls) h = run-IsChained (perform log c) calls (perform-IsChained log c h)

  pub run-init-IsChained : (calls : List Call) → IsChained (run init calls)
  run-init-IsChained calls = run-IsChained init calls init-IsChained

  IsChained-verify_chain : (log : AuditLog) → IsChained log → verify_chain sha log ≡ ok true
  unfolding verify_chain
  IsChained-verify_chain log h = elim (Bool-cases log.genesis_created) [
    | inr e ↦ rw (h.unstarted e)
    | inl e ↦
        let (r, rest, p) = h.started e in (verify_chain_iff log r rest p).1 (rw p at h.chained).3
  ]

  -- After any calls of `create_genesis` and `append` on a new log, at any times and in any order,
  -- those that fail included, `verify_chain` answers true.
  pub verify_chain-run : (calls : List Call) → verify_chain sha (run init calls) ≡ ok true
  verify_chain-run calls = IsChained-verify_chain (run init calls) (run-init-IsChained calls)
