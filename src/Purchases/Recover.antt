-- ===== src/Purchases/Recover.antt =====
-- purchase_repository.go: ConfirmExpiredRecovery.
use nim_near.Prelude.{
  ℕ, Bool, not, ◌&&◌, Option, none, some, [], ◌==◌, if◌then◌else◌, exists, is_none, coalesce, Text,
  is_empty, trim_space, Result, ok, plain, coded, internal, not_found, conflict,
  transaction_not_reserved, purchase_not_recoverable, purchase_state_changed,
  purchase_state_conflict, require, or_fail, ◌>>=◌, ◌>>◌, find, any, update_where, returning,
}
use nim_near.Store.{
  Db, Answers, transact, Time, Purchase, PurchaseStatus, purchase_is_pending, purchase_status_eq,
  reservation, domain_eq, event_purchase,
}
use nim_near.Purchases.Rows.{owned, set_purchases, active_for, sync_event_attendee_count}

-- `TransactionHash == nil || strings.TrimSpace(*TransactionHash) == ""`, negated.
abbrev pub has_written_hash : Option Text → Bool
has_written_hash h = exists (λ t. not (is_empty (trim_space t))) h

abbrev pub is_recoverable : Purchase → Bool
is_recoverable p =
    purchase_status_eq p.status PurchaseStatus.expired && has_written_hash p.transaction_hash

-- event_id = $1 AND user_id = $2 AND id <> $4 AND status = 'pending'
abbrev pub replacement : ℕ → ℕ → ℕ → Purchase → Bool
replacement event user id p =
    p.event_id == event && p.user_id == user && not (p.id == id) && purchase_is_pending p.status

abbrev pub release_row : Time → Purchase → Purchase
release_row now p = record p { status = PurchaseStatus.cancelled; updated_at = now }

-- id = $1 AND user_id = $2 AND status = 'expired' AND transaction_hash IS NOT NULL
abbrev pub recovering : ℕ → ℕ → Purchase → Bool
recovering id user p =
    p.id == id
    && p.user_id == user
    && purchase_status_eq p.status PurchaseStatus.expired
    && not (is_none p.transaction_hash)

abbrev pub recover_row : Time → Purchase → Purchase
recover_row now p = record p {
  status = PurchaseStatus.confirmed;
  capacity_hold_expires_at = none;
  verification_claimed_until = none;
  confirmed_at = some (coalesce p.confirmed_at now);
  updated_at = now;
}

-- The UPDATE to confirmed, which the unique index on active purchases guards, and the new count.
unfoldable pub confirm_row : Answers → ℕ → ℕ → Time → Time → Db → Result (Purchase × Db)
confirm_row up id user now clock db = do
  require (up 5) (plain internal)
  row ←
      or_fail (returning (recovering id user) (recover_row now) db.purchases)
        (coded conflict purchase_state_changed)
  require (not (any (λ p. not (p.id == id) && active_for row.event_id user p) db.purchases))
      (coded conflict purchase_state_conflict)
  synced ←
      sync_event_attendee_count (up 6) row.event_id clock
        (set_purchases db (update_where (recovering id user) (recover_row now) db.purchases))
  require (up 7) (plain internal)
  ok (row, synced.1)

unfoldable pub recover_locked :
    Answers → ℕ → ℕ → Time → Time → Purchase → Db → Result (Purchase × Db)
recover_locked up id user now clock current db = do
  require (is_recoverable current) (coded conflict purchase_not_recoverable)
  require (up 3) (plain internal)
  reserved ←
      or_fail (reservation (coalesce current.transaction_hash []) db.consumed)
        (coded conflict transaction_not_reserved)
  require (domain_eq reserved.domain_type event_purchase && reserved.domain_id == current.id)
      (coded conflict transaction_not_reserved)
  require (up 4) (plain internal)
  confirm_row up id user now clock (
      set_purchases db (
        update_where (replacement current.event_id user current.id) (release_row now) db.purchases))

unfoldable pub recover_tx : Answers → ℕ → ℕ → Time → Time → Db → Result (Purchase × Db)
recover_tx up id user now clock db = do
  require (up 0) (plain internal)
  require (up 1) (plain internal)
  current ← or_fail (find (owned id user) db.purchases) (plain not_found)
  if purchase_status_eq current.status PurchaseStatus.confirmed
      then (require (up 2) (plain internal) >> ok (current, db))
      else recover_locked up id user now clock current db

unfoldable pub confirm_expired_recovery : Answers → ℕ → ℕ → Time → Time → Db → Result Purchase × Db
confirm_expired_recovery up id user now clock db = transact db (recover_tx up id user now clock db)
