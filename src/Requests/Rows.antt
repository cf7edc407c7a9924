-- ===== src/Requests/Rows.antt =====
-- request_repository.go: Create, the reads with their lazy expiry, and the list of a creator.
use nim_near.Prelude.{
  ℕ, Bool, not, ◌&&◌, ◌||◌, none, List, ◌∷◌, ltb, leb, ◌==◌, if◌then◌else◌, Result, ok, err, plain,
  internal, not_found, require, or_fail, ◌>>◌, find, any, select, update_where, take, sort_by,
}
use nim_near.Store.{Db, Answers, transact, Time, Request, request_is_pending, pending, expired}

-- public_id = $1 AND status = 'pending' AND expires_at <= $2
abbrev pub is_due : ℕ → Time → Request → Bool
is_due public_id now r =
    r.public_id == public_id && request_is_pending r.status && leb r.expires_at now

abbrev pub expire : Time → Request → Request
expire now r = record r { status = expired; updated_at = now }

abbrev pub by_public : ℕ → Request → Bool
by_public public_id r = r.public_id == public_id

abbrev pub by_owner : ℕ → ℕ → Request → Bool
by_owner public_id creator_id r = r.public_id == public_id && r.creator_user_id == creator_id

abbrev pub by_id : ℕ → Request → Bool
by_id id r = r.id == id

abbrev pub set_requests : Db → List Request → Db
set_requests db rows = record db { requests = rows }

-- The row that the INSERT stores: the columns that it does not name are NULL.
abbrev pub inserted : Request → Request
inserted r = record r {
  status = pending;
  cancelled_at = none;
  paid_at = none;
  payer_user_id = none;
  transaction_hash = none;
  reconciliation_deadline_at = none;
  last_verification_attempt_at = none;
  verification_claimed_until = none;
  updated_at = r.created_at;
}

-- The keys id and public_id are unique. A violation is an error of the INSERT as any other.
unfoldable pub create : Answers → Request → Db → Result Request × Db
create up request db = transact db (do
  require (up 0) (plain internal)
  require (not (any (λ r. r.id == request.id || r.public_id == request.public_id) db.requests))
      (plain internal)
  require (not (request.amount_lunas == 0)) (plain internal)
  ok (inserted request, set_requests db (inserted request ∷ db.requests)))

-- The UPDATE of expirePending commits by itself.
unfoldable pub expire_pending : ℕ → Time → Db → Db
expire_pending public_id now db =
    set_requests db (update_where (is_due public_id now) (expire now) db.requests)

-- SELECT one row, outside a transaction.
unfoldable pub get_where : Bool → (Request → Bool) → Db → Result Request
get_where up p db = require up (plain internal) >> or_fail (find p db.requests) (plain not_found)

unfoldable pub get_by_public_id : Answers → ℕ → Time → Db → Result Request × Db
unfolding expire_pending get_where
get_by_public_id up public_id now db =
    if up 0
    then (let db' = expire_pending public_id now db in
        (get_where (up 1) (by_public public_id) db', db'))
    else (err (plain internal), db)

unfoldable pub get_owned_by_public_id : Answers → ℕ → ℕ → Time → Db → Result Request × Db
unfolding expire_pending get_where
get_owned_by_public_id up public_id creator_id now db =
    if up 0
    then (let db' = expire_pending public_id now db in
        (get_where (up 1) (by_owner public_id creator_id) db', db'))
    else (err (plain internal), db)

unfoldable pub get_by_id : Bool → ℕ → Db → Result Request
unfolding get_where
get_by_id up id db = get_where up (by_id id) db

-- creator_user_id = $1 AND status = 'pending' AND expires_at <= $2
abbrev pub creator_due : ℕ → Time → Request → Bool
creator_due creator_id now r =
    r.creator_user_id == creator_id && request_is_pending r.status && leb r.expires_at now

-- ORDER BY created_at DESC, id DESC
abbrev pub newest_first : Request → Request → Bool
newest_first a b = ltb b.created_at a.created_at || (a.created_at == b.created_at && leb b.id a.id)

unfoldable pub list_by_creator : Answers → ℕ → Time → ℕ → Db → Result (List Request) × Db
list_by_creator up creator_id now limit db =
    if up 0
    then (let db' =
          set_requests db (update_where (creator_due creator_id now) (expire now) db.requests) in
        (
          (require (up 1) (plain internal)
              >> ok (
                  take limit (
                    sort_by newest_first
                      (select (λ r. r.creator_user_id == creator_id) db'.requests)))),
          db',
        ))
    else (err (plain internal), db)
