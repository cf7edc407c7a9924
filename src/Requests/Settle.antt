-- ===== src/Requests/Settle.antt =====
-- request_repository.go: ClaimVerification, ListReconciliationCandidates, SetVerificationState,
-- ExpireUnresolved and ConfirmExpiredRecovery.
use nim_near.Prelude.{
  ℕ, ◌+◌, ◌*◌, ◌/◌, Bool, true, false, not, ◌&&◌, ◌||◌, Option, none, some, List, [], ltb, leb,
  ◌==◌, if◌then◌else◌, exists, is_none, coalesce, Text, is_empty, trim_space, Result, ok, err,
  plain, coded, internal, not_found, conflict, bad_request, transaction_not_reserved,
  payment_request_not_recoverable, payment_request_state_changed, payment_request_state_terminal,
  require, or_fail, ◌>>=◌, ◌>>◌, find, select, update_where, returning, take, sort_by,
}
use nim_near.Store.{
  Db, Answers, transact, Time, Duration, second, hour, Request, RequestStatus, request_in_flight,
  request_is_terminal, request_status_eq, reservation, domain_eq, payment_request,
}
use nim_near.Requests.Rows.{by_id, get_by_id, set_requests}

-- `if claimDuration < 30*time.Second`, then whole seconds: int64(claimDuration / time.Second).
abbrev pub claim_length : Duration → Duration
claim_length d = (if ltb d (30 * second) then 30 * second else d) / second * second

-- `last_verification_attempt_at <= now - retryInterval`, with the interval moved to the other side.
abbrev pub retry_due : Time → Duration → Request → Bool
retry_due now retry r =
    is_none r.last_verification_attempt_at
    || exists (λ t. leb (t + retry) now) r.last_verification_attempt_at

-- verification_claimed_until IS NULL OR verification_claimed_until <= now
abbrev pub is_unclaimed : Time → Request → Bool
is_unclaimed now r =
    is_none r.verification_claimed_until || exists (λ t. leb t now) r.verification_claimed_until

abbrev pub claimable : ℕ → Time → Duration → Bool → Request → Bool
claimable id now retry force r =
    r.id == id
    && request_in_flight r.status
    && is_unclaimed now r
    && (force || retry_due now retry r)

abbrev pub claim_row : Time → Duration → Request → Request
claim_row now claim r = record r {
  last_verification_attempt_at = some now;
  verification_claimed_until = some (now + claim_length claim);
}

-- `ok none` is the nil of a row that cannot be claimed.
unfoldable pub claim_verification :
    Bool → ℕ → Time → Duration → Duration → Bool → Db → Result (Option Request) × Db
claim_verification up id now retry claim force db = transact db (do
  require up (plain internal)
  ok (
    returning (claimable id now retry force) (claim_row now claim) db.requests,
    set_requests db (update_where (claimable id now retry force) (claim_row now claim) db.requests),
  ))

-- `if fallbackDeadline <= 0`, then whole seconds.
abbrev pub fallback_length : Duration → Duration
fallback_length d = (if d == 0 then hour else d) / second * second

-- COALESCE(reconciliation_deadline_at, updated_at + fallback)
abbrev pub row_deadline : Duration → Request → Time
row_deadline fallback r =
    coalesce r.reconciliation_deadline_at (r.updated_at + fallback_length fallback)

abbrev pub is_candidate : Time → Duration → Duration → Request → Bool
is_candidate now retry fallback r =
    request_in_flight r.status
    && is_unclaimed now r
    && (leb (row_deadline fallback r) now || retry_due now retry r)

-- ORDER BY rows with a deadline first, then the deadline, then id.
abbrev pub deadline_order : Duration → Request → Request → Bool
deadline_order fallback a b =
    let da = row_deadline fallback a in
    let db = row_deadline fallback b in
    let ordered = ltb da db || (da == db && leb a.id b.id) in
    if is_none a.reconciliation_deadline_at
    then is_none b.reconciliation_deadline_at && ordered
    else is_none b.reconciliation_deadline_at || ordered

unfoldable pub list_reconciliation_candidates :
    Bool → Time → Duration → Duration → ℕ → Db → Result (List Request)
list_reconciliation_candidates up now retry fallback limit db = if limit == 0 then ok [] else (do
  require up (plain internal)
  ok (
      take limit
        (sort_by (deadline_order fallback) (select (is_candidate now retry fallback) db.requests))))

abbrev pub in_flight_id : ℕ → Request → Bool
in_flight_id id r = r.id == id && request_in_flight r.status

-- CASE WHEN status = 'paid' THEN COALESCE(paid_at, now) ELSE paid_at END
abbrev pub settle_row : RequestStatus → Time → Request → Request
settle_row status now r = record r {
  status = status;
  verification_claimed_until = none;
  paid_at =
      if request_status_eq status RequestStatus.paid
      then some (coalesce r.paid_at now)
      else r.paid_at;
  updated_at = now;
}

-- StatusVerifying, StatusPaid or StatusFailed
abbrev pub is_outcome_status : RequestStatus → Bool
is_outcome_status RequestStatus.verifying = true
is_outcome_status RequestStatus.paid = true
is_outcome_status RequestStatus.failed = true
is_outcome_status _ = false

-- What SetVerificationState answers when its UPDATE found no row.
abbrev pub explain_settled : RequestStatus → Request → Result Request
explain_settled status current =
    if request_status_eq current.status status
    then ok current
    else if request_is_terminal current.status
    then err (coded conflict payment_request_state_terminal)
    else err (coded conflict payment_request_state_changed)

unfoldable pub settle_missing : Bool → ℕ → RequestStatus → Db → Result Request
unfolding get_by_id
settle_missing up id status db = get_by_id up id db >>= explain_settled status

unfoldable pub set_verification_state_tx :
    Answers → ℕ → RequestStatus → Time → Db → Result (Request × Db)
set_verification_state_tx up id status now db = do
  require (is_outcome_status status) (plain bad_request)
  require (up 0) (plain internal)
  elim (find (in_flight_id id) db.requests) [
    | some r ↦ ok (
      settle_row status now r,
      set_requests db (update_where (in_flight_id id) (settle_row status now) db.requests),
    )
    | none ↦ settle_missing (up 1) id status db >>= (λ r. ok (r, db))
  ]

unfoldable pub set_verification_state :
    Answers → ℕ → RequestStatus → Time → Db → Result Request × Db
set_verification_state up id status now db =
    transact db (set_verification_state_tx up id status now db)

abbrev pub is_stale : ℕ → Time → Duration → Request → Bool
is_stale id now fallback r =
    r.id == id && request_in_flight r.status && leb (row_deadline fallback r) now

abbrev pub expire_unresolved_row : Time → Request → Request
expire_unresolved_row now r = record r {
  status = RequestStatus.expired;
  verification_claimed_until = none;
  updated_at = now;
}

unfoldable pub expire_unresolved_tx : Answers → ℕ → Time → Duration → Db → Result (Request × Db)
expire_unresolved_tx up id now fallback db = do
  require (up 0) (plain internal)
  elim (find (is_stale id now fallback) db.requests) [
    | some r ↦ ok (
      expire_unresolved_row now r,
      set_requests db
          (update_where (is_stale id now fallback) (expire_unresolved_row now) db.requests),
    )
    | none ↦ get_by_id (up 1) id db >>= (λ r. ok (r, db))
  ]

unfoldable pub expire_unresolved : Answers → ℕ → Time → Duration → Db → Result Request × Db
expire_unresolved up id now fallback db = transact db (expire_unresolved_tx up id now fallback db)

-- `TransactionHash == nil || strings.TrimSpace(*TransactionHash) == ""`, negated.
abbrev pub has_written_hash : Option Text → Bool
has_written_hash h = exists (λ t. not (is_empty (trim_space t))) h

abbrev pub is_recoverable : Request → Bool
is_recoverable r =
    request_status_eq r.status RequestStatus.expired && has_written_hash r.transaction_hash

-- id = $1 AND status = 'expired' AND transaction_hash IS NOT NULL
abbrev pub recovering : ℕ → Request → Bool
recovering id r =
    r.id == id
    && request_status_eq r.status RequestStatus.expired
    && not (is_none r.transaction_hash)

abbrev pub recover_row : Time → Request → Request
recover_row now r = record r {
  status = RequestStatus.paid;
  verification_claimed_until = none;
  paid_at = some (coalesce r.paid_at now);
  updated_at = now;
}

-- The checks of the reservation, and the UPDATE.
unfoldable pub recover_locked : Answers → ℕ → Time → Request → Db → Result (Request × Db)
recover_locked up id now current db = do
  require (is_recoverable current) (coded conflict payment_request_not_recoverable)
  require (up 3) (plain internal)
  reserved ←
      or_fail (reservation (coalesce current.transaction_hash []) db.consumed)
        (coded conflict transaction_not_reserved)
  require (domain_eq reserved.domain_type payment_request && reserved.domain_id == current.id)
      (coded conflict transaction_not_reserved)
  require (up 4) (plain internal)
  row ←
      or_fail (returning (recovering id) (recover_row now) db.requests)
        (coded conflict payment_request_state_changed)
  require (up 5) (plain internal)
  ok (row, set_requests db (update_where (recovering id) (recover_row now) db.requests))

unfoldable pub recover_tx : Answers → ℕ → Time → Db → Result (Request × Db)
recover_tx up id now db = do
  require (up 0) (plain internal)
  require (up 1) (plain internal)
  current ← or_fail (find (by_id id) db.requests) (plain not_found)
  if request_status_eq current.status RequestStatus.paid
      then (require (up 2) (plain internal) >> ok (current, db))
      else recover_locked up id now current db

unfoldable pub confirm_expired_recovery : Answers → ℕ → Time → Db → Result Request × Db
confirm_expired_recovery up id now db = transact db (recover_tx up id now db)
