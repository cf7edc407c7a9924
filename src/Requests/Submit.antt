-- ===== src/Requests/Submit.antt =====
-- request_repository.go: SubmitTransaction.
use nim_near.Prelude.{
  ℕ, Bool, true, false, not, ◌&&◌, none, some, ◌==◌, if◌then◌else◌, exists, Text, text_eq, Result,
  ok, err, plain, coded, internal, not_found, conflict, already_exists, transaction_hash_used,
  payment_request_already_paid, payment_request_cancelled, payment_request_expired,
  payment_request_not_submittable, require, or_fail, ◌>>=◌, ◌>>◌, find, any, update_where,
  returning,
}
use nim_near.Store.{
  Db, Answers, transact, Time, Request, RequestStatus, request_is_pending, consume, payment_request,
}
use nim_near.Requests.Rows.{by_public}
use nim_near.Requests.Cancel.{expire_if_due}

abbrev pub has_hash : Text → Request → Bool
has_hash h r = exists (λ k. text_eq k h) r.transaction_hash

-- StatusSubmitted, StatusVerifying or StatusPaid
abbrev pub is_accepted : RequestStatus → Bool
is_accepted RequestStatus.submitted = true
is_accepted RequestStatus.verifying = true
is_accepted RequestStatus.paid = true
is_accepted _ = false

-- The same payer sends the hash that the row already has.
abbrev pub is_resubmission : ℕ → Text → Request → Bool
is_resubmission payer_id h r =
    has_hash h r && exists (λ p. p == payer_id) r.payer_user_id && is_accepted r.status

-- The switch on the status: only a pending request goes on.
abbrev pub require_pending : RequestStatus → Result (Unit {0})
require_pending RequestStatus.paid = err (coded conflict payment_request_already_paid)
require_pending RequestStatus.cancelled = err (coded conflict payment_request_cancelled)
require_pending RequestStatus.expired = err (coded conflict payment_request_expired)
require_pending RequestStatus.pending = ok tt
require_pending _ = err (coded conflict payment_request_not_submittable)

-- id = $1 AND status = 'pending'
abbrev pub submittable : ℕ → Request → Bool
submittable id r = r.id == id && request_is_pending r.status

abbrev pub submit_row : ℕ → Text → Time → Time → Request → Request
submit_row payer_id h now deadline r = record r {
  status = RequestStatus.submitted;
  transaction_hash = some h;
  payer_user_id = some payer_id;
  reconciliation_deadline_at = some deadline;
  last_verification_attempt_at = none;
  verification_claimed_until = none;
  updated_at = now;
}

-- The UPDATE of the locked row, which the unique index on transaction_hash guards, and Consume.
unfoldable pub submit_locked :
    Answers → ℕ → Text → Time → Time → Request → Db → Result (Request × Db)
submit_locked up payer_id h now deadline current db = do
  require_pending current.status
  require (up 4) (plain internal)
  row ←
      or_fail (returning (submittable current.id) (submit_row payer_id h now deadline) db.requests)
        (coded conflict payment_request_not_submittable)
  require (not (any (λ r. not (r.id == current.id) && has_hash h r) db.requests))
      (coded already_exists transaction_hash_used)
  require (up 5) (plain internal)
  consumed ←
      or_fail (consume h payment_request row.id now db.consumed)
        (coded already_exists transaction_hash_used)
  require (up 6) (plain internal)
  ok (
    row,
    record db {
      requests =
          update_where (submittable current.id) (submit_row payer_id h now deadline) db.requests;
      consumed = consumed;
    },
  )

-- After the lock: either the same submission again, or a new one.
unfoldable pub submit_or_repeat :
    Answers → ℕ → Text → Time → Time → Request → Db → Result (Request × Db)
submit_or_repeat up payer_id h now deadline current db =
    if is_resubmission payer_id h current
    then (require (up 3) (plain internal) >> ok (current, db))
    else submit_locked up payer_id h now deadline current db

unfoldable pub submit_tx : Answers → ℕ → ℕ → Text → Time → Time → Db → Result (Request × Db)
submit_tx up public_id payer_id h now deadline db = do
  require (up 0) (plain internal)
  require (up 1) (plain internal)
  current ← or_fail (find (by_public public_id) db.requests) (plain not_found)
  locked ←
      expire_if_due (up 2) public_id now (λ r. record r { status = RequestStatus.expired }) current
        db
  submit_or_repeat up payer_id h now deadline locked.0 locked.1

unfoldable pub submit_transaction : Answers → ℕ → ℕ → Text → Time → Time → Db → Result Request × Db
submit_transaction up public_id payer_id h now deadline db =
    transact db (submit_tx up public_id payer_id h now deadline db)
