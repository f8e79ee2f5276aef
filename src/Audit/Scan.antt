-- ===== src/Audit/Scan.antt =====
-- The records that `scan` returns.
use synthgen_core.Prelude.{
  ℕ, zero, suc, ◌+◌, ◌-◌, ◌<◌, true, false, ◌≡◌, refl, Option, List, [], ◌∷◌, ◌++◌, arith,
  append_assoc, append-nil, length, length-append, filter, take, take-nil, some, ◌≤◌, ◌↔◌,
  Bool-cases, inl, inr, none, if_rule,
}
use synthgen_core.Prelude.Int.{ℤ, pos, negsuc}
use synthgen_core.Common.Result.{ok}
use synthgen_core.Audit.{
  AuditRecord, AuditLog, in_range, too_early, too_late, limit_reached, scan_loop, scan,
}

-- What a limit leaves of the matches: all of them unless it is positive.
abbrev pub bounded : ℤ → List AuditRecord → List AuditRecord
bounded (pos zero) rs = rs
bounded (pos (suc n)) rs = take (suc n) rs
bounded (negsuc n) rs = rs

-- A time that is not before a bound, or not after it, where the bound is given.
abbrev pub From : Option ℤ → ℕ → Type 0
From none n = Unit
From (some (pos t)) n = t ≤ n
From (some (negsuc t)) n = Unit

abbrev pub UpTo : Option ℤ → ℕ → Type 0
UpTo none n = Unit
UpTo (some (pos t)) n = n ≤ t
UpTo (some (negsuc t)) n = ⊥

abbrev pub Within : Option ℤ → Option ℤ → AuditRecord → Type 0
Within from to r = From from r.timestamp × UpTo to r.timestamp

-- The second list has those of the first that are as `P` says, in their order, and no others.
pub data Selects (P : AuditRecord → Type 0) : List AuditRecord → List AuditRecord → Type 0 where
  none_left : Selects P [] []
  selected :
      (r : AuditRecord) (rs ss : List AuditRecord)
      → P r
      → Selects P rs ss
      → Selects P (r ∷ rs) (r ∷ ss)
  skipped :
      (r : AuditRecord) (rs ss : List AuditRecord) → ¬ P r → Selects P rs ss → Selects P (r ∷ rs) ss

From-too_early :
    (from : Option ℤ) (r : AuditRecord) → (too_early from r ≡ false) ↔ From from r.timestamp
From-too_early none r = (λ _. tt, λ _. refl)
From-too_early (some (pos t)) r = ground arith
From-too_early (some (negsuc t)) r = (λ _. tt, λ _. ground arith)

UpTo-too_late : (to : Option ℤ) (r : AuditRecord) → (too_late to r ≡ false) ↔ UpTo to r.timestamp
UpTo-too_late none r = (λ _. tt, λ _. refl)
UpTo-too_late (some (pos t)) r = ground arith
UpTo-too_late (some (negsuc t)) r = (λ e. ground arith, λ h. absurd h)

module _ (from to : Option ℤ) where
  in_range_iff : (r : AuditRecord) → (in_range from to r ≡ true) ↔ Within from to r
  unfolding in_range
  in_range_iff r = ground (arith, From-too_early from r, UpTo-too_late to r)

  Selects-in_range :
      (rs : List AuditRecord) → Selects (Within from to) rs (filter (in_range from to) rs)
  Selects-in_range [] = none_left
  Selects-in_range (r ∷ rs) =
      let rest = Selects-in_range rs in
      if_rule (Selects (Within from to) (r ∷ rs)) (in_range from to r)
        (λ e. selected r rs (filter (in_range from to) rs) ((in_range_iff r).0 e) rest)
        (λ e.
          skipped r rs (filter (in_range from to) rs)
            (λ h. let there = (in_range_iff r).1 h in absurd cc) rest)

  unlimited :
      (limit : ℤ) (result rs : List AuditRecord)
      → ((n : ℕ) → limit_reached limit n ≡ false)
      → scan_loop from to limit result rs ≡ result ++ filter (in_range from to) rs
  unfolding scan_loop
  unlimited limit result [] h = rw append-nil
  unlimited limit result (r ∷ rest) h = elim (Bool-cases (in_range from to r)) [
    | inl e ↦
        rw (e, h (length (result ++ r ∷ [])), unlimited limit (result ++ r ∷ []) rest h)
          (append_assoc result (r ∷ []) _)
    | inr e ↦ rw (e, unlimited limit result rest h)
  ]

  limited :
      (n : ℕ) (result rs : List AuditRecord)
      → length result < n
      → scan_loop from to (pos n) result rs
        ≡ result ++ take (n - length result) (filter (in_range from to) rs)
  unfolding scan_loop
  limited n result [] h = rw (take-nil {A = AuditRecord} (n - length result), append-nil)
  limited n result (r ∷ rest) h = elim (Bool-cases (in_range from to r)) [
    | inr e ↦ rw (e, limited n result rest h)
    | inl e ↦ elim (Bool-cases (limit_reached (pos n) (length (result ++ r ∷ [])))) [
      | inl f ↦ rw (e, f, one_left f)
      | inr f ↦
          rw (e, f, limited n (result ++ r ∷ []) rest (below f), some_left f)
            (append_assoc result (r ∷ []) _)
    ]
  ]
    where
      size : length (result ++ r ∷ []) ≡ length result + 1
      size = length-append result (r ∷ [])

      one_left : limit_reached (pos n) (length (result ++ r ∷ [])) ≡ true → n - length result ≡ 1
      one_left f = unfold limit_reached in ground (arith, size)

      below :
          limit_reached (pos n) (length (result ++ r ∷ [])) ≡ false → length (result ++ r ∷ []) < n
      below f = unfold limit_reached in ground (arith, size)

      some_left :
          limit_reached (pos n) (length (result ++ r ∷ [])) ≡ false
          → n - length result ≡ suc (n - length (result ++ r ∷ []))
      some_left f = omega (arith, size, below f)

-- Its answer, as the filter of the log.
scan-matches :
    (from to : Option ℤ) (limit : ℤ) (log : AuditLog)
    → scan from to limit log ≡ ok (bounded limit (filter (in_range from to) log.records))
unfolding scan limit_reached
scan-matches from to (pos zero) log = rw (unlimited from to (pos zero) [] log.records (λ n. refl))
scan-matches from to (negsuc k) log = rw (unlimited from to (negsuc k) [] log.records (λ n. refl))
scan-matches from to (pos (suc n)) log =
    rw (limited from to (suc n) [] log.records (omega arith), sub-zero)
  where
    sub-zero : suc n - 0 ≡ suc n
    sub-zero = omega arith

-- `scan` returns, in the order of the log, the records whose time is at least the first bound and at
-- most the second one, of those bounds that are given; where the limit is positive, the first so many
-- of them, and else all.
pub scan-Selects :
    (from to : Option ℤ) (limit : ℤ) (log : AuditLog)
    → (matches : List AuditRecord) × Selects (Within from to) log.records matches
      × (scan from to limit log ≡ ok (bounded limit matches))
scan-Selects from to limit log = (
  filter (in_range from to) log.records,
  Selects-in_range from to log.records,
  scan-matches from to limit log,
)
