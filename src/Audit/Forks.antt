-- ===== src/Audit/Forks.antt =====
-- `detect_forks` on the logs that the calls make.
use synthgen_core.Prelude.{
  Text, text, text_eq, text_eq_iff, text_lt, ◌≡◌, ◌≢◌, refl, sym, ap, ◌∙◌, List, [], ◌∷◌, ◌++◌,
  arith, All, Pairs, All-map, length, if_rule, append-cancel_right,
}
use synthgen_core.Prelude.Dict.{Dict}
use synthgen_core.Common.Result.{ok}
use synthgen_core.Common.Hash.{Sha256, length-sha256_hex}
use synthgen_core.Audit.{
  AuditRecord, init, compute_content_hash, compute_chain_hash, push_group, group_records, forks_of,
  detect_forks,
}
use synthgen_core.Audit.Chain.{Call, Chained, run, run-init-IsChained}
use synthgen_core.Audit.Tamper.{NoCollision}

abbrev pub Linkless : AuditRecord → AuditRecord → Type 0
Linkless r s = r.prev_hash ≢ s.prev_hash

module _ (sha : Sha256) where
  -- The hash does not collide on the chain inputs of the two records.
  abbrev pub LinksApart : AuditRecord → AuditRecord → Type 0
  LinksApart r s = NoCollision sha (r.prev_hash ++ r.content_hash) (s.prev_hash ++ s.content_hash)

  length-content_hash : (r : AuditRecord) → length (compute_content_hash sha r) ≡ 64
  unfolding compute_content_hash
  length-content_hash r = length-sha256_hex sha _

  length-chain_hash : (p c : Text) → length (compute_chain_hash sha p c) ≡ 64
  unfolding compute_chain_hash
  length-chain_hash p c = length-sha256_hex sha (p ++ c)

  chain_hash-ne :
      (p q : Text) (r s : AuditRecord) (rest more : List AuditRecord)
      → Chained sha p (r ∷ rest)
      → Chained sha q (s ∷ more)
      → LinksApart r s
      → p ≢ q
      → r.chain_hash ≢ s.chain_hash
  unfolding compute_chain_hash
  chain_hash-ne p q r s rest more h k apart ne e = ne (cc (h.0, k.0, links))
    where
      sizes : length r.content_hash ≡ length s.content_hash
      sizes = rw (h.1, k.1) (length-content_hash r ∙ sym (length-content_hash s))

      links : r.prev_hash ≡ s.prev_hash
      links =
          append-cancel_right r.prev_hash s.prev_hash r.content_hash s.content_hash sizes
            (apart (sym h.2 ∙ e ∙ k.2))

  -- No later record follows the chain hash of a record whose link differs from theirs.
  later_links :
      (p q : Text) (r : AuditRecord) (rest : List AuditRecord) (u : AuditRecord)
      (more : List AuditRecord)
      → Chained sha p (r ∷ rest)
      → Chained sha q (u ∷ more)
      → All (LinksApart r) (u ∷ more)
      → p ≢ q
      → All (λ s. p ≢ s.prev_hash) more
      → All (λ s. r.chain_hash ≢ s.prev_hash) more
  later_links p q r rest u [] h k apart ne links = tt
  later_links p q r rest u (t ∷ more) h k apart ne links = (
    λ e. chain_hash-ne p q r u rest (t ∷ more) h k apart.0 ne (e ∙ k.3.0),
    later_links p u.chain_hash r rest t more h k.3 apart.1 (λ e. links.0 (e ∙ sym k.3.0)) links.1,
  )

  Chained-Linkless :
      (p : Text) (r : AuditRecord) (rest : List AuditRecord)
      → Chained sha p (r ∷ rest)
      → Pairs LinksApart (r ∷ rest)
      → All (λ s. p ≢ s.prev_hash) rest
      → Pairs Linkless (r ∷ rest)
  Chained-Linkless p r [] h apart links = (tt, tt)
  Chained-Linkless p r (s ∷ more) h apart links = (
    All-map {P = λ t. p ≢ t.prev_hash} {Q = Linkless r} (λ t ne e. ne (sym h.0 ∙ e)) (s ∷ more)
        links,
    Chained-Linkless r.chain_hash s more h.3 apart.1 (
        later_links p r.chain_hash r (s ∷ more) s more h h.3 apart.0 (λ e. links.0 (e ∙ sym h.3.0))
          links.1),
  )

  -- Links other than the first are hashes.
  long_links :
      (p : Text) (rs : List AuditRecord)
      → Chained sha p rs
      → length p ≡ 64
      → All (λ s. text "0" ≢ s.prev_hash) rs
  unfolding text
  long_links p [] h long = tt
  long_links p (r ∷ rs) h long = (
    λ e. absurd (omega (arith, ap length e, ap length h.0)),
    long_links r.chain_hash rs h.3 (rw h.2 (length-chain_hash r.prev_hash r.content_hash)),
  )

  Chained-start :
      (rs : List AuditRecord) → Chained sha (text "0") rs → Pairs LinksApart rs → Pairs Linkless rs
  Chained-start [] h apart = tt
  Chained-start (r ∷ rest) h apart =
      Chained-Linkless (text "0") r rest h apart
        (long_links r.chain_hash rest h.3 (rw h.2 (length-chain_hash r.prev_hash r.content_hash)))

module _ (P : Text × List Text → Type 0) (k id : Text) where
  push_group-All :
      (groups : Dict (List Text))
      → P (k, id ∷ [])
      → All P groups
      → All (λ g. g.0 ≢ k) groups
      → All P (push_group k id groups)
  unfolding push_group
  push_group-All [] new h ne = (new, tt)
  push_group-All ((j, ids) ∷ groups) new h ne =
      if_rule (All P) (text_eq j k) (λ e. absurd (ne.0 ((text_eq_iff j k).0 e)))
        λ e.
          if_rule (All P) (text_lt k j) (λ f. (new, h))
            λ f. (h.0, push_group-All groups new h.1 ne.1)

-- A group of one record, whose link no record of `rest` has.
abbrev Single : List AuditRecord → Text × List Text → Type 0
Single rest (k, ids) = (length ids ≡ 1) × All (λ s. k ≢ s.prev_hash) rest

group_records-Single :
    (groups : Dict (List Text)) (rs : List AuditRecord)
    → Pairs Linkless rs
    → All (Single rs) groups
    → All (Single []) (group_records groups rs)
unfolding group_records
group_records-Single groups [] apart h = h
group_records-Single groups (r ∷ rest) apart h =
    group_records-Single (push_group r.prev_hash r.record_id groups) rest apart.1 (
      push_group-All (Single rest) r.prev_hash r.record_id groups (refl, apart.0)
        (All-map {P = Single (r ∷ rest)} {Q = Single rest} (λ g single. (single.0, single.1.1))
          groups h)
        (All-map {P = Single (r ∷ rest)} {Q = λ g. g.0 ≢ r.prev_hash} (λ g single. single.1.0)
          groups h))

forks_of-Single : (groups : Dict (List Text)) → All (Single []) groups → forks_of groups ≡ []
unfolding forks_of
forks_of-Single [] h = refl
forks_of-Single ((k, ids) ∷ groups) h = ground (arith, forks_of-Single groups h.1)

-- After any calls on a new log, `detect_forks` reports no fork, provided that the hash does not
-- collide on the chain inputs of any two of the log's records.
pub detect_forks-run :
    (sha : Sha256) (calls : List Call)
    → Pairs (LinksApart sha) (run sha init calls).records
    → detect_forks (run sha init calls) ≡ ok []
unfolding detect_forks
detect_forks-run sha calls apart =
    let log = run sha init calls in
    let linkless = Chained-start sha log.records (run-init-IsChained sha calls).chained apart in
    rw (
      forks_of-Single (group_records [] log.records)
        (group_records-Single [] log.records linkless tt))
