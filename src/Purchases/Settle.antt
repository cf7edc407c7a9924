-- ===== src/Purchases/Settle.antt =====
-- purchase_repository.go: ClaimVerification, ListReconciliationCandidates, ExpireUnresolved and
-- SetVerificationState.
use nim_near.Prelude.{
  ℕ, ◌+◌, ◌*◌, ◌/◌, Bool, true, false, ◌&&◌, ◌||◌, Option, none, some, List, [], ltb, leb, ◌==◌,
  if◌then◌else◌, exists, is_none, coalesce, Result, ok, err, plain, coded, internal, not_found,
  conflict, bad_request, purchase_state_changed, purchase_state_terminal, require, or_fail, ◌>>=◌,
  ◌>>◌, find, select, update_where, returning, take, sort_by,
}
use nim_near.Store.{
  Db, Answers, transact, Time, Duration, second, hour, Purchase, PurchaseStatus, purchase_in_flight,
  purchase_status_eq,
}
use nim_near.Purchases.Rows.{
  owned, get_owned, set_purchases, event_by_id, sync_event_attendee_count,
}

-- `if claimDuration < 30*time.Second`, then whole seconds: int64(claimDuration / time.Second).
abbrev pub claim_length : Duration → Duration
claim_length d = (if ltb d (30 * second) then 30 * second else d) / second * second

-- `last_verification_attempt_at <= now - retryInterval`, with the interval moved to the other side.
abbrev pub retry_due : Time → Duration → Purchase → Bool
retry_due now retry p =
    is_none p.last_verification_attempt_at
    || exists (λ t. leb (t + retry) now) p.last_verification_attempt_at

-- verification_claimed_until IS NULL OR verification_claimed_until <= now
abbrev pub is_unclaimed : Time → Purchase → Bool
is_unclaimed now p =
    is_none p.verification_claimed_until || exists (λ t. leb t now) p.verification_claimed_until

abbrev pub claimable : ℕ → ℕ → Time → Duration → Bool → Purchase → Bool
claimable id user now retry force p =
    p.id == id
    && p.user_id == user
    && purchase_in_flight p.status
    && is_unclaimed now p
    && (force || retry_due now retry p)

abbrev pub claim_row : Time → Duration → Purchase → Purchase
claim_row now claim p = record p {
  last_verification_attempt_at = some now;
  verification_claimed_until = some (now + claim_length claim);
}

-- `ok none` is the nil of a row that cannot be claimed.
unfoldable pub claim_verification :
    Bool → ℕ → ℕ → Time → Duration → Duration → Bool → Db → Result (Option Purchase) × Db
claim_verification up id user now retry claim force db = transact db (do
  require up (plain internal)
  ok (
    returning (claimable id user now retry force) (claim_row now claim) db.purchases,
    set_purchases db
        (update_where (claimable id user now retry force) (claim_row now claim) db.purchases),
  ))

-- `if fallbackDeadline <= 0`, then whole seconds.
abbrev pub fallback_length : Duration → Duration
fallback_length d = (if d == 0 then hour else d) / second * second

-- COALESCE(reconciliation_deadline_at, updated_at + fallback)
abbrev pub row_deadline : Duration → Purchase → Time
row_deadline fallback p =
    coalesce p.reconciliation_deadline_at (p.updated_at + fallback_length fallback)

abbrev pub is_candidate : Time → Duration → Duration → Purchase → Bool
is_candidate now retry fallback p =
    purchase_in_flight p.status
    && is_unclaimed now p
    && (leb (row_deadline fallback p) now || retry_due now retry p)

-- ORDER BY rows with a deadline first, then the deadline, then id.
abbrev pub deadline_order : Duration → Purchase → Purchase → Bool
deadline_order fallback a b =
    let da = row_deadline fallback a in
    let db = row_deadline fallback b in
    let ordered = ltb da db || (da == db && leb a.id b.id) in
    if is_none a.reconciliation_deadline_at
    then is_none b.reconciliation_deadline_at && ordered
    else is_none b.reconciliation_deadline_at || ordered

unfoldable pub list_reconciliation_candidates :
    Bool → Time → Duration → Duration → ℕ → Db → Result (List Purchase)
list_reconciliation_candidates up now retry fallback limit db = if limit == 0 then ok [] else (do
  require up (plain internal)
  ok (
      take limit (
        sort_by (deadline_order fallback) (select (is_candidate now retry fallback) db.purchases))))

abbrev pub is_stale : ℕ → ℕ → Time → Duration → Purchase → Bool
is_stale id user now fallback p =
    p.id == id
    && p.user_id == user
    && purchase_in_flight p.status
    && leb (row_deadline fallback p) now

abbrev pub expire_unresolved_row : Time → Purchase → Purchase
expire_unresolved_row now p = record p {
  status = PurchaseStatus.expired;
  capacity_hold_expires_at = none;
  verification_claimed_until = none;
  updated_at = now;
}

unfoldable pub expire_unresolved_tx :
    Answers → ℕ → ℕ → Time → Duration → Db → Result (Purchase × Db)
expire_unresolved_tx up id user now fallback db = do
  require (up 0) (plain internal)
  elim (find (is_stale id user now fallback) db.purchases) [
    | some p ↦ ok (
      expire_unresolved_row now p,
      set_purchases db
          (update_where (is_stale id user now fallback) (expire_unresolved_row now) db.purchases),
    )
    | none ↦ get_owned (up 1) id user db >>= (λ p. ok (p, db))
  ]

unfoldable pub expire_unresolved : Answers → ℕ → ℕ → Time → Duration → Db → Result Purchase × Db
expire_unresolved up id user now fallback db =
    transact db (expire_unresolved_tx up id user now fallback db)

-- id = $1 AND user_id = $2 AND status IN ('submitted', 'verifying')
abbrev pub in_flight_owned : ℕ → ℕ → Purchase → Bool
in_flight_owned id user p = p.id == id && p.user_id == user && purchase_in_flight p.status

-- CASE WHEN status = 'confirmed' THEN COALESCE(confirmed_at, now) ELSE confirmed_at END
abbrev pub settle_row : PurchaseStatus → Time → Purchase → Purchase
settle_row status now p = record p {
  status = status;
  capacity_hold_expires_at = none;
  verification_claimed_until = none;
  confirmed_at =
      if purchase_status_eq status PurchaseStatus.confirmed
      then some (coalesce p.confirmed_at now)
      else p.confirmed_at;
  updated_at = now;
}

-- StatusVerifying, StatusConfirmed or StatusFailed
abbrev pub is_outcome_status : PurchaseStatus → Bool
is_outcome_status PurchaseStatus.verifying = true
is_outcome_status PurchaseStatus.confirmed = true
is_outcome_status PurchaseStatus.failed = true
is_outcome_status _ = false

abbrev pub is_terminal : PurchaseStatus → Bool
is_terminal PurchaseStatus.failed = true
is_terminal PurchaseStatus.expired = true
is_terminal PurchaseStatus.cancelled = true
is_terminal PurchaseStatus.confirmed = true
is_terminal _ = false

-- What SetVerificationState answers when its UPDATE found no row.
abbrev pub explain_settled : PurchaseStatus → Purchase → Result Purchase
explain_settled status current =
    if purchase_status_eq current.status status
    then ok current
    else if is_terminal current.status
    then err (coded conflict purchase_state_terminal)
    else err (coded conflict purchase_state_changed)

-- `if status == model.StatusConfirmed { syncEventAttendeeCount }`
unfoldable pub sync_if_confirmed : Bool → PurchaseStatus → ℕ → Time → Db → Result (Unit {0} × Db)
sync_if_confirmed up status event clock db =
    if purchase_status_eq status PurchaseStatus.confirmed
    then sync_event_attendee_count up event clock db >>= (λ r. ok (tt, r.1))
    else ok (tt, db)

-- `clock` is NOW() of syncEventAttendeeCount, and `now` the argument of the call.
unfoldable pub set_verification_state_tx :
    Answers → ℕ → ℕ → PurchaseStatus → Time → Time → Db → Result (Purchase × Db)
set_verification_state_tx up id user status now clock db = do
  require (is_outcome_status status) (plain bad_request)
  require (up 0) (plain internal)
  known ← or_fail (find (owned id user) db.purchases) (plain not_found)
  require (up 1) (plain internal)
  require (up 2) (plain internal)
  event ← or_fail (find (event_by_id known.event_id) db.events) (plain internal)
  require (up 3) (plain internal)
  elim (find (in_flight_owned id user) db.purchases) [
    | some p ↦ (do
      synced ← sync_if_confirmed (up 4) status p.event_id clock (
          set_purchases db
            (update_where (in_flight_owned id user) (settle_row status now) db.purchases))
      require (up 5) (plain internal)
      ok (settle_row status now p, synced.1))
    | none ↦ (get_owned (up 6) id user db >>= explain_settled status) >>= (λ p. ok (p, db))
  ]

unfoldable pub set_verification_state :
    Answers → ℕ → ℕ → PurchaseStatus → Time → Time → Db → Result Purchase × Db
set_verification_state up id user status now clock db =
    transact db (set_verification_state_tx up id user status now clock db)
