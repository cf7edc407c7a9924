-- ===== src/Purchases/Submit.antt =====
-- purchase_repository.go: SubmitTransaction.
use nim_near.Prelude.{
  ℕ, Bool, not, ◌&&◌, ◌||◌, none, some, ◌==◌, if◌then◌else◌, exists, Text, text_eq, Result, ok,
  plain, coded, internal, not_found, conflict, already_exists, transaction_hash_used,
  event_cancelled, purchase_not_submittable, require, or_fail, ◌>>=◌, ◌>>◌, find, any, update_where,
  returning,
}
use nim_near.Store.{
  Db, Answers, transact, Time, Purchase, PurchaseStatus, purchase_is_pending, purchase_in_flight,
  purchase_status_eq, consume, event_purchase, is_cancelled,
}
use nim_near.Purchases.Rows.{owned, event_by_id}

abbrev pub has_hash : Text → Purchase → Bool
has_hash h p = exists (λ k. text_eq k h) p.transaction_hash

-- The row already has this hash, and is submitted, verifying or confirmed.
abbrev pub is_resubmission : Text → Purchase → Bool
is_resubmission h p =
    has_hash h p
    && (purchase_in_flight p.status || purchase_status_eq p.status PurchaseStatus.confirmed)

-- id = $1 AND user_id = $2 AND status = 'pending'
abbrev pub submittable : ℕ → ℕ → Purchase → Bool
submittable id user p = p.id == id && p.user_id == user && purchase_is_pending p.status

abbrev pub submit_row : Text → Time → Time → Purchase → Purchase
submit_row h now deadline p = record p {
  status = PurchaseStatus.submitted;
  transaction_hash = some h;
  capacity_hold_expires_at = none;
  reconciliation_deadline_at = some deadline;
  last_verification_attempt_at = none;
  verification_claimed_until = none;
  updated_at = now;
}

-- The checks of the locked rows, the UPDATE, which the unique index on transaction_hash guards, and
-- Consume. Here an UPDATE that finds no row is an internal error.
unfoldable pub submit_locked :
    Answers → ℕ → ℕ → Text → Time → Time → Purchase → Db → Result (Purchase × Db)
submit_locked up id user h now deadline current db = do
  require (up 3) (plain internal)
  event ← or_fail (find (event_by_id current.event_id) db.events) (plain internal)
  require (not (is_cancelled event.status)) (coded conflict event_cancelled)
  require (purchase_is_pending current.status) (coded conflict purchase_not_submittable)
  require (up 4) (plain internal)
  row ←
      or_fail (returning (submittable id user) (submit_row h now deadline) db.purchases)
        (plain internal)
  require (not (any (λ p. not (p.id == id) && has_hash h p) db.purchases))
      (coded already_exists transaction_hash_used)
  require (up 5) (plain internal)
  consumed ←
      or_fail (consume h event_purchase row.id now db.consumed)
        (coded already_exists transaction_hash_used)
  require (up 6) (plain internal)
  ok (
    row,
    record db {
      purchases = update_where (submittable id user) (submit_row h now deadline) db.purchases;
      consumed = consumed;
    },
  )

unfoldable pub submit_tx : Answers → ℕ → ℕ → Text → Time → Time → Db → Result (Purchase × Db)
submit_tx up id user h now deadline db = do
  require (up 0) (plain internal)
  require (up 1) (plain internal)
  current ← or_fail (find (owned id user) db.purchases) (plain not_found)
  if is_resubmission h current
      then (require (up 2) (plain internal) >> ok (current, db))
      else submit_locked up id user h now deadline current db

unfoldable pub submit_transaction : Answers → ℕ → ℕ → Text → Time → Time → Db → Result Purchase × Db
submit_transaction up id user h now deadline db =
    transact db (submit_tx up id user h now deadline db)
