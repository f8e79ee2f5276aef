-- ===== src/Audit/Ids.antt =====
-- The record ids that `generate_id` gives out.
use synthgen_core.Prelude.{
  ℕ, suc, ◌<◌, text, text_eq, true, not, ◌≡◌, ◌≢◌, refl, List, [], ◌∷◌, ◌++◌, arith, All, Pairs,
  All-map, All-append, Pairs-snoc, append-cancel_left, if_rule,
}
use synthgen_core.Prelude.Decimal.{to_string, to_string-injective}
use synthgen_core.Common.Hash.{Sha256}
use synthgen_core.Audit.{AuditRecord, AuditLog, init, generate_id, create_genesis, append, seal}
use synthgen_core.Audit.Chain.{Call, genesis, appends, perform, run}

-- The id was given out before the counter reached `n`.
abbrev IdBelow : ℕ → AuditRecord → Type 0
IdBelow n r = (k : ℕ) × (k < n) × (r.record_id ≡ text "aud_" ++ to_string k)

abbrev pub Apart : AuditRecord → AuditRecord → Type 0
Apart r s = r.record_id ≢ s.record_id

record HasIds (log : AuditLog) : Type 0 where
  below : All (IdBelow log.next_id) log.records
  apart : Pairs Apart log.records

IdBelow-suc : (n : ℕ) (r : AuditRecord) → IdBelow n r → IdBelow (suc n) r
IdBelow-suc n r (k, h, e) = (k, omega arith, e)

IdBelow-Apart :
    (n : ℕ) (r s : AuditRecord) → s.record_id ≡ text "aud_" ++ to_string n → IdBelow n r → Apart r s
IdBelow-Apart n r s e (k, h, f) same = absurd (omega (arith, numbers))
  where
    numbers : k ≡ n
    numbers =
        to_string-injective k n (append-cancel_left (text "aud_") (to_string k) (to_string n) (cc))

extend-HasIds :
    (log : AuditLog) (r : AuditRecord)
    → HasIds log
    → r.record_id ≡ text "aud_" ++ to_string log.next_id
    → HasIds (record {
      records = log.records ++ r ∷ [];
      genesis_created = true;
      next_id = suc log.next_id;
    })
extend-HasIds log r h e = record {
  below =
      All-append (IdBelow (suc log.next_id)) log.records (r ∷ [])
        (All-map (IdBelow-suc log.next_id) log.records h.below) ((log.next_id, omega arith, e), tt);
  apart =
      Pairs-snoc Apart log.records r h.apart
        (All-map (λ s. IdBelow-Apart log.next_id s r e) log.records h.below);
}

abbrev Leaves {ℓ} : {A : Type ℓ} → A × AuditLog → Type 0
Leaves (a, log) = HasIds log

module _ (sha : Sha256) where
  perform-HasIds : (log : AuditLog) (c : Call) → HasIds log → HasIds (perform sha log c)
  unfolding perform create_genesis append seal generate_id
  perform-HasIds log (genesis now) h =
      if_rule Leaves log.genesis_created (λ e. h)
        λ e. let h' = extend-HasIds log _ h refl in record { below = h'.below; apart = h'.apart }
  perform-HasIds log (appends operation actor metadata now) h =
      if_rule Leaves (not log.genesis_created) (λ e. h)
        λ e.
          if_rule Leaves (text_eq operation []) (λ f. h)
            λ f.
              let h' = extend-HasIds log _ h refl in record { below = h'.below; apart = h'.apart }

  run-HasIds : (log : AuditLog) (calls : List Call) → HasIds log → HasIds (run sha log calls)
  unfolding run
  run-HasIds log [] h = h
  run-HasIds log (c ∷ calls) h = run-HasIds (perform sha log c) calls (perform-HasIds log c h)

  -- After any calls on a new log, no two of its records have the same id.
  pub run-ids-Apart : (calls : List Call) → Pairs Apart (run sha init calls).records
  run-ids-Apart calls = (run-HasIds init calls (record { below = tt; apart = tt })).apart
