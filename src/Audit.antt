-- ===== src/Audit.antt =====
-- storage/audit/audit_log.h and audit_log.cpp: the hash-chained log. The clock and SHA256 are
-- arguments; times are microseconds since the epoch, not negative. The mutex makes each call one
-- step. A call returns its result and the log after it.
mod Chain
mod Ids
mod Tamper
mod Daily
mod Forks
mod Scan
mod Examples
use synthgen_core.Prelude.{
  ℕ, zero, suc, ◌+◌, Text, text, text_eq, String, Bool, true, false, not, ◌&&◌, ◌||◌, Option, none,
  some, List, [], ◌∷◌, ◌++◌, length, ltb, leb, if◌then◌else◌, text_lt,
}
use synthgen_core.Prelude.Decimal.{to_string}
use synthgen_core.Prelude.Dict.{Dict}
use synthgen_core.Prelude.Int.{ℤ, pos, negsuc, ltb_ℤ}
use synthgen_core.Common.Result.{
  Result, ok, fail, already_exists, invalid_state, invalid_argument, not_found,
}
use synthgen_core.Common.Hash.{Sha256, sha256_hex}

pub record AuditRecord : Type 0 where
  pub record_id : Text
  pub operation : Text
  pub actor_identity : Text
  pub timestamp : ℕ
  pub prev_hash : Text
  pub content_hash : Text
  pub chain_hash : Text
  pub metadata : Dict Text

pub record ChainVerificationReport : Type 0 where
  pub is_valid : Bool
  pub total_records : ℕ
  pub verified_records : ℕ
  pub broken_links : List Text
  pub fork_points : List Text

pub record ForkDetection : Type 0 where
  pub record_id : Text
  pub prev_hash : Text
  pub competing_next : List Text

pub record AuditLog : Type 0 where
  pub records : List AuditRecord
  pub genesis_created : Bool
  pub next_id : ℕ

abbrev pub init : AuditLog
init = record { records = []; genesis_created = false; next_id = 1 }

-- A default-constructed record.
abbrev blank : AuditRecord
blank = record {
  record_id = [];
  operation = [];
  actor_identity = [];
  timestamp = 0;
  prev_hash = [];
  content_hash = [];
  chain_hash = [];
  metadata = [];
}

unfoldable pub generate_id : AuditLog → Text
generate_id log = text "aud_" ++ to_string log.next_id

-- `oss << k << "=" << v << ";"` for each entry, in the order of the keys
unfoldable pub metadata_text : Dict Text → Text
metadata_text [] = []
metadata_text ((k, v) ∷ m) = k ++ (text "=" ++ (v ++ (text ";" ++ metadata_text m)))

-- What is hashed as a record's content.
unfoldable pub content : AuditRecord → Text
content r =
    r.operation
    ++ (text "|"
        ++ (r.actor_identity
            ++ (text "|" ++ (to_string r.timestamp ++ (text "|" ++ metadata_text r.metadata)))))

-- records_.back(); on an empty deque the source is undefined, and here it is the given record
unfoldable pub back_or : AuditRecord → List AuditRecord → AuditRecord
back_or r [] = r
back_or r (s ∷ rest) = back_or s rest

-- r.timestamp < *from
abbrev pub too_early : Option ℤ → AuditRecord → Bool
too_early none r = false
too_early (some t) r = ltb_ℤ (pos r.timestamp) t

-- r.timestamp > *to
abbrev pub too_late : Option ℤ → AuditRecord → Bool
too_late none r = false
too_late (some t) r = ltb_ℤ t (pos r.timestamp)

unfoldable pub in_range : Option ℤ → Option ℤ → AuditRecord → Bool
in_range from to r = not (too_early from r) && not (too_late to r)

-- `limit > 0 && size >= limit`
unfoldable pub limit_reached : ℤ → ℕ → Bool
limit_reached (pos n) size = ltb 0 n && leb n size
limit_reached (negsuc n) size = false

-- the loop of `scan`, over the records left
unfoldable pub scan_loop :
    Option ℤ → Option ℤ → ℤ → List AuditRecord → List AuditRecord → List AuditRecord
scan_loop from to limit result [] = result
scan_loop from to limit result (r ∷ rest) =
    let skip = scan_loop from to limit result rest in
    let taken = result ++ r ∷ [] in
    let more = scan_loop from to limit taken rest in
    if not (in_range from to r)
    then skip
    else if limit_reached limit (length taken)
    then taken
    else more

unfoldable pub scan : Option ℤ → Option ℤ → ℤ → AuditLog → Result (List AuditRecord)
scan from to limit log = ok (scan_loop from to limit [] log.records)

unfoldable pub get_latest : AuditLog → Result AuditRecord
unfolding back_or
get_latest log = elim log.records [
  | [] ↦ fail not_found (text "No audit records") (text "audit_log")
  | r ∷ rest ↦ ok (back_or r rest)
]

unfoldable pub record_count : AuditLog → ℕ
record_count log = length log.records

-- prev_hash_groups[k].push_back(id), on a map kept in the order of its keys
unfoldable pub push_group : Text → Text → Dict (List Text) → Dict (List Text)
push_group k id [] = (k, id ∷ []) ∷ []
push_group k id ((j, ids) ∷ groups) =
    let rest = push_group k id groups in
    if text_eq j k
    then (j, ids ++ id ∷ []) ∷ groups
    else if text_lt k j
    then (k, id ∷ []) ∷ (j, ids) ∷ groups
    else (j, ids) ∷ rest

unfoldable pub group_records : Dict (List Text) → List AuditRecord → Dict (List Text)
group_records groups [] = groups
group_records groups (r ∷ rest) = group_records (push_group r.prev_hash r.record_id groups) rest

-- a group of more than one record is a fork; its `record_id` stays empty
unfoldable pub forks_of : Dict (List Text) → List ForkDetection
forks_of [] = []
forks_of ((prev, ids) ∷ groups) =
    let rest = forks_of groups in
    let fork : ForkDetection = record { record_id = []; prev_hash = prev; competing_next = ids } in
    if ltb 1 (length ids) then fork ∷ rest else rest

unfoldable pub detect_forks : AuditLog → Result (List ForkDetection)
unfolding group_records push_group forks_of
detect_forks log = ok (forks_of (group_records [] log.records))

module _ (sha : Sha256) where
  unfoldable pub compute_content_hash : AuditRecord → Text
  compute_content_hash r = sha256_hex sha (content r)

  unfoldable pub compute_chain_hash : Text → Text → Text
  compute_chain_hash prev_hash content_hash = sha256_hex sha (prev_hash ++ content_hash)

  -- the assignments of `prev_hash`, `content_hash` and `chain_hash`
  unfoldable pub seal : Text → AuditRecord → AuditRecord
  seal prev r =
      let hash = compute_content_hash r in
      record r { prev_hash = prev; content_hash = hash; chain_hash = compute_chain_hash prev hash }

  unfoldable pub create_genesis : ℕ → AuditLog → Result (Unit {0}) × AuditLog
  create_genesis now log =
      let genesis = seal (text "0") (record blank {
        record_id = generate_id log;
        operation = text "genesis";
        actor_identity = text "system";
        timestamp = now;
      }) in
      if log.genesis_created
      then (fail already_exists (text "Genesis record already exists") (text "audit_log"), log)
      else (
        ok tt,
        record {
          records = log.records ++ genesis ∷ [];
          genesis_created = true;
          next_id = suc log.next_id;
        },
      )

  unfoldable pub append : Text → Text → Dict Text → ℕ → AuditLog → Result AuditRecord × AuditLog
  append operation actor metadata now log =
      let r = seal (back_or blank log.records).chain_hash (record blank {
        record_id = generate_id log;
        operation = operation;
        actor_identity = actor;
        timestamp = now;
        metadata = metadata;
      }) in
      if not log.genesis_created
      then (
        fail invalid_state (text "Genesis record must be created first") (text "audit_log"),
        log,
      )
      else if text_eq operation []
      then (fail invalid_argument (text "Operation is required") (text "audit_log"), log)
      else (
        ok r,
        record {
          records = log.records ++ r ∷ [];
          genesis_created = log.genesis_created;
          next_id = suc log.next_id;
        },
      )

  -- the loop of `verify_chain` from its second record on; `prev` is records_[i - 1]
  unfoldable pub check_links : AuditRecord → List AuditRecord → Bool
  check_links prev [] = true
  check_links prev (curr ∷ rest) =
      let more = check_links curr rest in
      if not (text_eq curr.prev_hash prev.chain_hash)
      then false
      else if not (text_eq curr.content_hash (compute_content_hash curr))
      then false
      else if not (text_eq curr.chain_hash (compute_chain_hash curr.prev_hash curr.content_hash))
      then false
      else more

  unfoldable pub verify_chain : AuditLog → Result Bool
  verify_chain log = elim log.records [ [] ↦ ok true | r ∷ rest ↦ ok (check_links r rest) ]

  -- one of the three tests of `daily_verification`
  abbrev report_if : Bool → Text → ChainVerificationReport → ChainVerificationReport
  report_if broken id report =
      if broken
      then record report { broken_links = report.broken_links ++ id ∷ []; is_valid = false }
      else report

  -- the body of the loop of `daily_verification`
  unfoldable pub check_record :
      AuditRecord → AuditRecord → ChainVerificationReport → ChainVerificationReport
  check_record prev curr report =
      let id = curr.record_id in
      let linked = report_if (not (text_eq curr.prev_hash prev.chain_hash)) id report in
      let hashed =
        report_if (not (text_eq curr.content_hash (compute_content_hash curr))) id linked in
      let chained =
        report_if
          (not (text_eq curr.chain_hash (compute_chain_hash curr.prev_hash curr.content_hash))) id
          hashed in
      record chained { verified_records = suc chained.verified_records }

  unfoldable pub daily_links :
      AuditRecord → List AuditRecord → ChainVerificationReport → ChainVerificationReport
  unfolding check_record
  daily_links prev [] report = report
  daily_links prev (curr ∷ rest) report = daily_links curr rest (check_record prev curr report)

  unfoldable pub daily_verification : AuditLog → Result ChainVerificationReport
  unfolding daily_links
  daily_verification log =
      let report : ChainVerificationReport = record {
        is_valid = true;
        total_records = length log.records;
        verified_records = 0;
        broken_links = [];
        fork_points = [];
      } in
      elim log.records [ [] ↦ ok report | r ∷ rest ↦ ok (daily_links r rest report) ]
