-- ===== src/Audit/Daily.antt =====
-- `daily_verification` against `verify_chain`.
use synthgen_core.Prelude.{
  ℕ, suc, ◌+◌, ◌-◌, Text, text_eq, Bool, true, false, not, ◌≡◌, refl, ◌↔◌, List, [], ◌∷◌, arith,
  length, if◌then◌else◌, snoc-ne-nil,
}
use synthgen_core.Common.Result.{ok}
use synthgen_core.Common.Hash.{Sha256}
use synthgen_core.Audit.{
  AuditRecord, AuditLog, ChainVerificationReport, report_if, check_links, verify_chain,
  check_record, daily_links, daily_verification, compute_content_hash, compute_chain_hash,
}

-- The report says that the chain is valid exactly when it lists no broken link.
abbrev IsConsistent : ChainVerificationReport → Type 0
IsConsistent r = (r.is_valid ≡ true) ↔ (r.broken_links ≡ [])

module _ (sha : Sha256) where
  report_if-IsConsistent :
      (b : Bool) (id : Text) (r : ChainVerificationReport)
      → IsConsistent r
      → IsConsistent (report_if sha b id r)
  report_if-IsConsistent true id r h =
      (λ e. absurd (false_true e), λ e. absurd (snoc-ne-nil r.broken_links id e))
    where
      false_true : false ≡ true → ⊥
      false_true e = cc
  report_if-IsConsistent false id r h = h

  -- What the report says of a record is what `check_links` says of it.
  daily_links-is_valid :
      (prev : AuditRecord) (rest : List AuditRecord) (r : ChainVerificationReport)
      → (daily_links sha prev rest r).is_valid
        ≡ (if r.is_valid then check_links sha prev rest else false)
  unfolding daily_links check_links
  daily_links-is_valid prev [] r = ground arith
  daily_links-is_valid prev (curr ∷ rest) r = simp (daily_links-is_valid curr rest) (ground arith)

  daily_links-verified_records :
      (prev : AuditRecord) (rest : List AuditRecord) (r : ChainVerificationReport)
      → (daily_links sha prev rest r).verified_records ≡ r.verified_records + length rest
  unfolding daily_links
  daily_links-verified_records prev [] r = omega arith
  daily_links-verified_records prev (curr ∷ rest) r =
      simp (daily_links-verified_records curr rest) (ground arith)

  daily_links-total_records :
      (prev : AuditRecord) (rest : List AuditRecord) (r : ChainVerificationReport)
      → (daily_links sha prev rest r).total_records ≡ r.total_records
  unfolding daily_links
  daily_links-total_records prev [] r = refl
  daily_links-total_records prev (curr ∷ rest) r =
      simp (daily_links-total_records curr rest) (ground arith)

  check_record-IsConsistent :
      (prev curr : AuditRecord) (r : ChainVerificationReport)
      → IsConsistent r
      → IsConsistent (check_record sha prev curr r)
  unfolding check_record
  check_record-IsConsistent prev curr r h = report_if-IsConsistent last curr.record_id _ (
      report_if-IsConsistent middle curr.record_id _
        (report_if-IsConsistent first curr.record_id r h))
    where
      first : Bool
      first = not (text_eq curr.prev_hash prev.chain_hash)

      middle : Bool
      middle = not (text_eq curr.content_hash (compute_content_hash sha curr))

      last : Bool
      last = not (text_eq curr.chain_hash (compute_chain_hash sha curr.prev_hash curr.content_hash))

  daily_links-IsConsistent :
      (prev : AuditRecord) (rest : List AuditRecord) (r : ChainVerificationReport)
      → IsConsistent r
      → IsConsistent (daily_links sha prev rest r)
  unfolding daily_links
  daily_links-IsConsistent prev [] r h = h
  daily_links-IsConsistent prev (curr ∷ rest) r h =
      daily_links-IsConsistent curr rest (check_record sha prev curr r)
        (check_record-IsConsistent prev curr r h)

  -- The report of `daily_verification`, and what `verify_chain` says of the same log.
  abbrev Reports : AuditLog → Type 0
  Reports log =
      (report : ChainVerificationReport) × (daily_verification sha log ≡ ok report)
      × (verify_chain sha log ≡ ok report.is_valid)
      × ((report.is_valid ≡ true) ↔ (report.broken_links ≡ []))
      × (report.total_records ≡ length log.records)
      × (report.verified_records ≡ length log.records - 1)

  Reports-at :
      (rs : List AuditRecord) (created : Bool) (n : ℕ)
      → Reports (record { records = rs; genesis_created = created; next_id = n })
  unfolding daily_verification verify_chain
  Reports-at [] created n = (_, refl, refl, (λ _. refl, λ _. refl), refl, refl)
  Reports-at (r ∷ rest) created n = (
    daily_links sha r rest start,
    refl,
    rw (daily_links-is_valid r rest start),
    daily_links-IsConsistent r rest start (λ _. refl, λ _. refl),
    daily_links-total_records r rest start,
    omega (arith, daily_links-verified_records r rest start),
  )
    where
      start : ChainVerificationReport
      start = record {
        is_valid = true;
        total_records = suc (length rest);
        verified_records = 0;
        broken_links = [];
        fork_points = [];
      }

  -- `daily_verification` gives a report that is valid exactly when `verify_chain` answers true,
  -- and exactly when it lists no broken link; it counts every record of the log, and as verified
  -- every record but the first.
  pub daily_verification-verify_chain :
      (log : AuditLog)
      → (report : ChainVerificationReport) × (daily_verification sha log ≡ ok report)
        × (verify_chain sha log ≡ ok report.is_valid)
        × ((report.is_valid ≡ true) ↔ (report.broken_links ≡ []))
        × (report.total_records ≡ length log.records)
        × (report.verified_records ≡ length log.records - 1)
  daily_verification-verify_chain log = Reports-at log.records log.genesis_created log.next_id
