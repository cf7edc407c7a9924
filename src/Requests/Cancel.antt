-- ===== src/Requests/Cancel.antt =====
-- request_repository.go: Cancel, and expirePendingTx, which Cancel and SubmitTransaction share.
use nim_near.Prelude.{
  ℕ, Bool, not, ◌&&◌, some, ltb, ◌==◌, if◌then◌else◌, coalesce, Result, ok, err, plain, coded,
  internal, not_found, conflict, payment_request_not_cancellable, require, or_fail, ◌>>=◌, ◌>>◌,
  find, update_where, returning,
}
use nim_near.Store.{Db, Answers, transact, Time, Request, RequestStatus, request_is_pending}
use nim_near.Requests.Rows.{is_due, expire, by_owner, set_requests}

-- The row and the tables after the UPDATE of expirePendingTx. With no row returned the caller's
-- copy is patched by `patch`.
unfoldable pub expire_pending_tx :
    Bool → ℕ → Time → (Request → Request) → Request → Db → Result (Request × Db)
expire_pending_tx up public_id now patch current db = do
  require up (plain internal)
  let rows = update_where (is_due public_id now) (expire now) db.requests
  ok (
    coalesce (returning (is_due public_id now) (expire now) db.requests) (patch current),
    set_requests db rows,
  )

-- `if current.Status == StatusPending && !now.Before(current.ExpiresAt)`
unfoldable pub expire_if_due :
    Bool → ℕ → Time → (Request → Request) → Request → Db → Result (Request × Db)
unfolding expire_pending_tx
expire_if_due up public_id now patch current db =
    if request_is_pending current.status && not (ltb now current.expires_at)
    then expire_pending_tx up public_id now patch current db
    else ok (current, db)

-- public_id = $1 AND creator_user_id = $2 AND status = 'pending'
abbrev pub cancellable : ℕ → ℕ → Request → Bool
cancellable public_id creator_id r =
    r.public_id == public_id && r.creator_user_id == creator_id && request_is_pending r.status

abbrev pub cancel_row : Time → Request → Request
cancel_row now r = record r {
  status = RequestStatus.cancelled;
  cancelled_at = some (coalesce r.cancelled_at now);
  updated_at = now;
}

-- The switch on the status of the locked row.
unfoldable pub cancel_locked :
    Answers → ℕ → ℕ → Time → RequestStatus → Request → Db → Result (Request × Db)
cancel_locked up public_id creator_id now RequestStatus.cancelled current db =
    require (up 3) (plain internal) >> ok (current, db)
cancel_locked up public_id creator_id now RequestStatus.expired current db =
    require (up 3) (plain internal) >> ok (current, db)
cancel_locked up public_id creator_id now RequestStatus.pending current db = do
  require (up 4) (plain internal)
  row ←
      or_fail (returning (cancellable public_id creator_id) (cancel_row now) db.requests)
        (plain internal)
  require (up 5) (plain internal)
  ok (
    row,
    set_requests db (update_where (cancellable public_id creator_id) (cancel_row now) db.requests),
  )
cancel_locked up public_id creator_id now _ current db =
    err (coded conflict payment_request_not_cancellable)

unfoldable pub cancel_tx : Answers → ℕ → ℕ → Time → Db → Result (Request × Db)
cancel_tx up public_id creator_id now db = do
  require (up 0) (plain internal)
  require (up 1) (plain internal)
  current ← or_fail (find (by_owner public_id creator_id) db.requests) (plain not_found)
  locked ← expire_if_due (up 2) public_id now (expire now) current db
  cancel_locked up public_id creator_id now locked.0.status locked.0 locked.1

unfoldable pub cancel : Answers → ℕ → ℕ → Time → Db → Result Request × Db
cancel up public_id creator_id now db = transact db (cancel_tx up public_id creator_id now db)
