-- ===== src/Audit/Examples.antt =====
-- The theorems at a log of two records, with a checksum in place of SHA256.
use synthgen_core.Prelude.{
  ℕ, zero, suc, ◌+◌, ◌-◌, ◌%◌, Text, text, true, ◌≡◌, ◌≢◌, ◌↔◌, refl, some, none, List, [], ◌∷◌,
  ◌++◌, arith, length, Pairs, text_eq,
}
use synthgen_core.Prelude.Decimal.{to_string}
use synthgen_core.Prelude.Int.{pos}
use synthgen_core.Common.Result.{ok}
use synthgen_core.Common.Hash.{Sha256, sha256_hex, hex_bytes}
use synthgen_core.Audit.{
  AuditRecord, ChainVerificationReport, init, blank, content, generate_id, metadata_text,
  compute_content_hash, compute_chain_hash, seal, create_genesis, append, back_or, check_links,
  verify_chain, daily_verification, detect_forks, scan,
}
use synthgen_core.Audit.Chain.{
  Call, genesis, appends, Chained, run, verify_chain_iff, verify_chain-run,
}
use synthgen_core.Audit.Ids.{Apart, run-ids-Apart}
use synthgen_core.Audit.Tamper.{
  verify_chain-tamper, verify_chain-first_record, verify_chain-shifted, around,
}
use synthgen_core.Audit.Daily.{daily_verification-verify_chain}
use synthgen_core.Audit.Forks.{LinksApart, detect_forks-run}
use synthgen_core.Audit.Scan.{bounded, Selects, Within, scan-Selects}

abbrev sum : Text → ℕ
sum [] = 0
sum (c ∷ cs) = c + sum cs

abbrev zeros : ℕ → List ℕ
zeros zero = []
zeros (suc n) = 0 ∷ zeros n

abbrev checksum : Sha256
checksum = record { digest = λ s. (sum s % 256) ∷ zeros 31; digest_size = λ s. refl }

abbrev calls : List Call
calls =
    appends (text "early") (text "u") [] 4
    ∷ genesis 5
    ∷ appends (text "load") (text "u") ((text "rows", text "9") ∷ []) 7
    ∷ appends (text "drop") (text "u") [] 9
    ∷ []

abbrev two_calls : List Call
two_calls = genesis 5 ∷ appends (text "load") (text "u") ((text "rows", text "9") ∷ []) 7 ∷ []

three_records : length (run checksum init calls).records ≡ 3
unfolding run create_genesis append text_eq text
three_records = refl

verify_chain-run_example : verify_chain checksum (run checksum init calls) ≡ ok true
verify_chain-run_example = verify_chain-run checksum calls

run-ids-Apart_example : Pairs Apart (run checksum init calls).records
run-ids-Apart_example = run-ids-Apart checksum calls

daily_verification-verify_chain_example :
    (report : ChainVerificationReport) × (daily_verification checksum (run checksum init calls)
      ≡ ok report)
    × (verify_chain checksum (run checksum init calls) ≡ ok report.is_valid)
    × ((report.is_valid ≡ true) ↔ (report.broken_links ≡ []))
    × (report.total_records ≡ length (run checksum init calls).records)
    × (report.verified_records ≡ length (run checksum init calls).records - 1)
daily_verification-verify_chain_example =
    daily_verification-verify_chain checksum (run checksum init calls)

scan-Selects_example :
    (matches : List AuditRecord) × Selects
      (Within (some (pos 6)) none)
      (run checksum init calls).records
      matches
    × (scan (some (pos 6)) none (pos 1) (run checksum init calls) ≡ ok (bounded (pos 1) matches))
scan-Selects_example = scan-Selects (some (pos 6)) none (pos 1) (run checksum init calls)

two_links : Pairs (LinksApart checksum) (run checksum init two_calls).records
unfolding run create_genesis append seal generate_id content metadata_text compute_content_hash
    compute_chain_hash sha256_hex hex_bytes text to_string back_or text_eq
two_links = ((λ e. ground arith, tt), (tt, tt))

detect_forks-run_example : detect_forks (run checksum init two_calls) ≡ ok []
detect_forks-run_example = detect_forks-run checksum two_calls two_links

abbrev loaded : AuditRecord
unfolding seal
loaded = seal checksum [] (record blank { record_id = text "aud_2"; operation = text "load" })

abbrev renamed : AuditRecord
unfolding seal
renamed = record loaded { record_id = text "aud_7" }

abbrev dropped : AuditRecord
unfolding seal
dropped = seal checksum loaded.chain_hash (record blank { operation = text "drop" })

loaded_verified : verify_chain checksum (around checksum blank [] loaded dropped []) ≡ ok true
unfolding verify_chain check_links seal content metadata_text compute_content_hash
    compute_chain_hash sha256_hex hex_bytes text to_string text_eq
loaded_verified = refl

renamed_verified : verify_chain checksum (around checksum blank [] renamed dropped []) ≡ ok true
unfolding verify_chain check_links seal content metadata_text compute_content_hash
    compute_chain_hash sha256_hex hex_bytes text to_string text_eq
renamed_verified = refl

verify_chain-tamper_example : content loaded ≡ content renamed
unfolding seal content
verify_chain-tamper_example =
    verify_chain-tamper checksum blank loaded renamed dropped [] [] loaded_verified renamed_verified
      (λ e. refl) (λ e. refl)

verify_chain_iff_example :
    (verify_chain checksum (around checksum blank [] loaded dropped []) ≡ ok true)
    ↔ Chained checksum [] (loaded ∷ dropped ∷ [])
verify_chain_iff_example =
    verify_chain_iff checksum (around checksum blank [] loaded dropped []) blank
      (loaded ∷ dropped ∷ []) refl

verify_chain-first_record_example :
    verify_chain checksum (record init { records = blank ∷ loaded ∷ [] })
    ≡ verify_chain checksum
        (record init { records = record blank { operation = text "forged" } ∷ loaded ∷ [] })
verify_chain-first_record_example =
    verify_chain-first_record checksum init blank (record blank { operation = text "forged" })
      (loaded ∷ []) refl

abbrev spliced : AuditRecord
spliced = record loaded {
  operation = text "load" ++ text "|" ++ text "by";
  actor_identity = text "eve";
}

abbrev split : AuditRecord
split = record loaded {
  operation = text "load";
  actor_identity = text "by" ++ text "|" ++ text "eve";
}

verify_chain-shifted_example :
    (spliced ≢ split)
    × (verify_chain checksum (record init { records = blank ∷ spliced ∷ dropped ∷ [] })
        ≡ verify_chain checksum (record init { records = blank ∷ split ∷ dropped ∷ [] }))
verify_chain-shifted_example =
    verify_chain-shifted checksum init blank loaded [] (dropped ∷ []) (text "load") (text "by")
      (text "eve")
