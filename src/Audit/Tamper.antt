-- ===== src/Audit/Tamper.antt =====
-- What `verify_chain` finds of a record that was altered in place, and what it cannot find.
use synthgen_core.Prelude.{
  Text, text, true, ◌≡◌, refl, List, [], ◌∷◌, ◌++◌, ◌≢◌, ap, arith, length, length-append,
  append_assoc, append-cancel_left,
}
use synthgen_core.Common.Result.{ok}
use synthgen_core.Common.Hash.{Sha256, sha256_hex}
use synthgen_core.Audit.{
  AuditRecord, AuditLog, content, compute_content_hash, compute_chain_hash, check_links,
  verify_chain,
}
use synthgen_core.Audit.Chain.{Chained, end_hash, Chained-split, verify_chain_iff}

-- The hash does not collide on these two inputs.
abbrev pub NoCollision : Sha256 → Text → Text → Type 0
NoCollision sha s t = sha256_hex sha s ≡ sha256_hex sha t → s ≡ t

module _ (sha : Sha256) where
  -- The records of a log with one record that is neither the first nor the last.
  abbrev pub around :
      AuditRecord → List AuditRecord → AuditRecord → AuditRecord → List AuditRecord → AuditLog
  around g before r next after = record {
    records = g ∷ before ++ r ∷ next ∷ after;
    genesis_created = true;
    next_id = 1;
  }

  content_hash_of_link :
      (prev : Text) (r s next : AuditRecord) (after : List AuditRecord)
      → Chained sha prev (r ∷ next ∷ after)
      → Chained sha prev (s ∷ next ∷ after)
      → NoCollision sha (prev ++ r.content_hash) (prev ++ s.content_hash)
      → compute_content_hash sha r ≡ compute_content_hash sha s
  unfolding compute_chain_hash
  content_hash_of_link prev r s next after h k free =
      let links : r.chain_hash ≡ s.chain_hash = cc (h.3.0, k.3.0) in
      let hashes : sha256_hex sha (prev ++ r.content_hash)
          ≡ sha256_hex sha (prev ++ s.content_hash) =
        cc (h.0, h.2, k.0, k.2, links) in
      let contents = append-cancel_left prev r.content_hash s.content_hash (free hashes) in
      cc (h.1, k.1, contents)

  -- If a record that is neither the first nor the last is replaced by any other, its hashes
  -- recomputed or not, and `verify_chain` answers true of the log before and after, then the two
  -- records have the same content, provided that the hash does not collide on the two contents
  -- nor on the two inputs of the chain hash.
  pub verify_chain-tamper :
      (g r s next : AuditRecord) (before after : List AuditRecord)
      → verify_chain sha (around g before r next after) ≡ ok true
      → verify_chain sha (around g before s next after) ≡ ok true
      → NoCollision sha
          (end_hash sha g.chain_hash before ++ r.content_hash)
          (end_hash sha g.chain_hash before ++ s.content_hash)
      → NoCollision sha (content r) (content s)
      → content r ≡ content s
  unfolding compute_content_hash
  verify_chain-tamper g r s next before after h k free_link free_content =
      let rs = before ++ r ∷ next ∷ after in
      let ss = before ++ s ∷ next ∷ after in
      let hr = (verify_chain_iff sha (around g before r next after) g rs refl).0 h in
      let hs = (verify_chain_iff sha (around g before s next after) g ss refl).0 k in
      let old = (Chained-split sha g.chain_hash before (r ∷ next ∷ after) hr).1 in
      let new = (Chained-split sha g.chain_hash before (s ∷ next ∷ after) hs).1 in
      free_content
        (content_hash_of_link (end_hash sha g.chain_hash before) r s next after old new free_link)

  -- The first record is never checked against its own content: of two logs that differ in their
  -- first records only, and in these not in the chain hash, `verify_chain` says the same.
  pub verify_chain-first_record :
      (log : AuditLog) (g h : AuditRecord) (rest : List AuditRecord)
      → g.chain_hash ≡ h.chain_hash
      → verify_chain sha (record log { records = g ∷ rest })
        ≡ verify_chain sha (record log { records = h ∷ rest })
  unfolding verify_chain check_links
  verify_chain-first_record log g h [] e = refl
  verify_chain-first_record log g h (r ∷ rest) e = rw e

-- The same content, with a separator in the operation or in the actor's name.
content-shift :
    (r : AuditRecord) (a b c : Text)
    → content (record r { operation = a ++ text "|" ++ b; actor_identity = c })
      ≡ content (record r { operation = a; actor_identity = b ++ text "|" ++ c })
unfolding content text
content-shift r a b c = simp append_assoc

module _ (sha : Sha256) where
  -- Two records that differ in what `verify_chain` does not read of them by itself.
  module _ (x y : AuditRecord) (prev : x.prev_hash ≡ y.prev_hash)
      (hash : x.content_hash ≡ y.content_hash) (chain : x.chain_hash ≡ y.chain_hash)
      (same : content x ≡ content y) where
    check_links-after :
        (after : List AuditRecord) → check_links sha x after ≡ check_links sha y after
    unfolding check_links
    check_links-after [] = refl
    check_links-after (r ∷ rest) = rw chain refl

    check_links-replaced :
        (g : AuditRecord) (before after : List AuditRecord)
        → check_links sha g (before ++ x ∷ after) ≡ check_links sha g (before ++ y ∷ after)
    unfolding check_links compute_content_hash
    check_links-replaced g [] after = rw (same, check_links-after after, prev, hash, chain) refl
    check_links-replaced g (b ∷ before) after = rw (check_links-replaced b before after) refl

  -- The separators of the content are not escaped: if the operation of a record after the first
  -- contains a `|`, the part after it can be moved to the front of the actor's name. Whatever the hash
  -- function, the records differ and the hashes of the old one are left in place, but `verify_chain`
  -- says the same of the two logs.
  pub verify_chain-shifted :
      (log : AuditLog) (g r : AuditRecord) (before after : List AuditRecord) (a b c : Text)
      → let x = record r { operation = a ++ text "|" ++ b; actor_identity = c } in
        let y = record r { operation = a; actor_identity = b ++ text "|" ++ c } in
        (x ≢ y)
        × (verify_chain sha (record log { records = g ∷ before ++ x ∷ after })
            ≡ verify_chain sha (record log { records = g ∷ before ++ y ∷ after }))
  unfolding verify_chain text
  verify_chain-shifted log g r before after a b c =
      let x : AuditRecord = record r { operation = a ++ text "|" ++ b; actor_identity = c } in
      let y : AuditRecord = record r { operation = a; actor_identity = b ++ text "|" ++ c } in
      (
        λ e.
            let same : a ++ text "|" ++ b ≡ a = ap (λ (t : AuditRecord). t.operation) e in
            absurd (
              omega (
                arith,
                ap length same,
                length-append (a ++ text "|") b,
                length-append a (text "|"),
              )),
        rw (check_links-replaced x y refl refl refl (content-shift r a b c) g before after) refl,
      )
