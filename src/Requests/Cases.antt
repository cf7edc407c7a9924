-- ===== src/Requests/Cases.antt =====
-- How each operation of the repository may change the tables: a property of the tables that
-- survives every UPDATE of the operation survives the operation, whichever database call fails.
use nim_near.Prelude.{
  ℕ, ◌≡◌, Bool, true, false, not, ◌&&◌, ◌||◌, some, List, ◌∷◌, ◌==◌, Text, require-eq-ok,
  or_fail-eq-ok, returning-found, arith, update_where, any, returning, inl, inr, Bool-cases, ◌>>=◌,
}
use nim_near.Store.{
  Db, Answers, Time, Duration, Request, RequestStatus, request_status_eq, consume, payment_request,
  Consumed,
}
use nim_near.Store.After.{After, after, After-bind, After-bind_db, transact-After}
use nim_near.Requests.Rows.{
  is_due, expire, set_requests, create, inserted, get_by_public_id, get_owned_by_public_id,
  list_by_creator, creator_due,
}
use nim_near.Requests.Cancel.{
  expire_pending_tx, expire_if_due, cancellable, cancel_row, cancel_locked, cancel, cancel_tx,
}
use nim_near.Requests.Submit.{
  submittable, submit_row, submit_locked, submit_or_repeat, submit_transaction, submit_tx,
  is_resubmission, has_hash,
}
use nim_near.Requests.Settle.{
  claimable, claim_row, claim_verification, in_flight_id, settle_row, is_outcome_status,
  set_verification_state, set_verification_state_tx, expire_unresolved_tx, recover_tx, is_stale,
  expire_unresolved_row, expire_unresolved, recovering, recover_row, recover_locked,
  confirm_expired_recovery,
}

module _ {ℓ} (P : Db → Type ℓ) where
  abbrev pub Survives : (Request → Bool) → (Request → Request) → Type ℓ
  Survives p f = (db : Db) → P db → P (set_requests db (update_where p f db.requests))

  pub expire_if_due-cases :
      (up : Bool) (public_id : ℕ) (now : Time) (patch : Request → Request) (current : Request)
      (db : Db)
      → Survives (is_due public_id now) (expire now)
      → P db
      → After P (expire_if_due up public_id now patch current db)
  unfolding expire_if_due expire_pending_tx ◌>>=◌
  expire_if_due-cases up public_id now patch current db due h = after P _ (ground (arith, due db h))

  pub cancel_locked-cases :
      (up : Answers) (public_id creator_id : ℕ) (now : Time) (status : RequestStatus)
      (current : Request) (db : Db)
      → Survives (cancellable public_id creator_id) (cancel_row now)
      → P db
      → After P (cancel_locked up public_id creator_id now status current db)
  unfolding cancel_locked ◌>>=◌
  cancel_locked-cases up public_id creator_id now status current db cancels h =
      after P _ (ground (arith, cancels db h))

  pub cancel-cases :
      (up : Answers) (public_id creator_id : ℕ) (now : Time) (db : Db)
      → Survives (is_due public_id now) (expire now)
      → Survives (cancellable public_id creator_id) (cancel_row now)
      → P db
      → P (cancel up public_id creator_id now db).1
  unfolding cancel cancel_tx
  cancel-cases up public_id creator_id now db due cancels h =
      transact-After P db (cancel_tx up public_id creator_id now db) h (
        After-bind P _ _ λ _ _. After-bind P _ _ λ _ _. After-bind P _ _ λ current _.
          After-bind_db P _ _
            (expire_if_due-cases (up 2) public_id now (expire now) current db due h)
            λ locked k.
              cancel_locked-cases up public_id creator_id now _ locked.0 locked.1 cancels k)

  pub claim_verification-cases :
      (up : Bool) (id : ℕ) (now : Time) (retry claim : Duration) (force : Bool) (db : Db)
      → Survives (claimable id now retry force) (claim_row now claim)
      → P db
      → P (claim_verification up id now retry claim force db).1
  unfolding claim_verification ◌>>=◌
  claim_verification-cases up id now retry claim force db claims h = ground (arith, claims db h)

  pub set_verification_state-cases :
      (up : Answers) (id : ℕ) (status : RequestStatus) (now : Time) (db : Db)
      → (is_outcome_status status ≡ true → Survives (in_flight_id id) (settle_row status now))
      → P db
      → P (set_verification_state up id status now db).1
  unfolding set_verification_state set_verification_state_tx ◌>>=◌
  set_verification_state-cases up id status now db settles h =
      elim (Bool-cases (is_outcome_status status)) [
        | inl o ↦ ground (arith, settles o db h)
        | inr o ↦ ground arith
      ]

  pub expire_unresolved-cases :
      (up : Answers) (id : ℕ) (now : Time) (fallback : Duration) (db : Db)
      → Survives (is_stale id now fallback) (expire_unresolved_row now)
      → P db
      → P (expire_unresolved up id now fallback db).1
  unfolding expire_unresolved expire_unresolved_tx ◌>>=◌
  expire_unresolved-cases up id now fallback db expires h = ground (arith, expires db h)

  -- What the writes of an accepted submission have to keep.
  abbrev pub Submits : ℕ → Text → Time → Time → Request → Db → Type ℓ
  Submits payer_id k now deadline current db =
      (consumed : List Consumed)
      → any (λ r. not (r.id == current.id) && has_hash k r) db.requests ≡ false
      → consume k payment_request current.id now db.consumed ≡ some consumed
      → P (record db {
        requests =
            update_where (submittable current.id) (submit_row payer_id k now deadline) db.requests;
        consumed = consumed;
      })

  pub submit_locked-cases :
      (up : Answers) (payer_id : ℕ) (k : Text) (now deadline : Time) (current : Request) (db : Db)
      → Submits payer_id k now deadline current db
      → After P (submit_locked up payer_id k now deadline current db)
  unfolding submit_locked
  submit_locked-cases up payer_id k now deadline current db submits = After-bind P _ _ λ _ _.
      After-bind P _ _ λ _ _. After-bind P _ _ λ row found. After-bind P _ _ λ _ fresh.
        After-bind P _ _ λ _ _. After-bind P _ _ λ consumed e. After-bind P _ _ λ _ _.
          After.done row _ (
            submits consumed (ground (arith, require-eq-ok _ _ fresh))
              (submitted_id (or_fail-eq-ok _ _ found) (or_fail-eq-ok _ _ e)))
    where
      submitted_id :
          {row : Request} {consumed : List Consumed}
          → returning (submittable current.id) (submit_row payer_id k now deadline) db.requests
            ≡ some row
          → consume k payment_request row.id now db.consumed ≡ some consumed
          → consume k payment_request current.id now db.consumed ≡ some consumed
      submitted_id found e =
          let (r, p, q) =
            returning-found (submittable current.id) (submit_row payer_id k now deadline)
              db.requests found in
          ground arith

  pub submit_or_repeat-cases :
      (up : Answers) (payer_id : ℕ) (k : Text) (now deadline : Time) (current : Request) (db : Db)
      → Submits payer_id k now deadline current db
      → P db
      → After P (submit_or_repeat up payer_id k now deadline current db)
  unfolding submit_or_repeat
  submit_or_repeat-cases up payer_id k now deadline current db submits h =
      elim (Bool-cases (is_resubmission payer_id k current)) [
        | inl e ↦ rw (e, submit_or_repeat) (After-bind P _ _ λ _ _. After.done current db h)
        | inr e ↦
            rw (e, submit_or_repeat)
              (submit_locked-cases up payer_id k now deadline current db submits)
      ]

  pub submit_transaction-cases :
      (up : Answers) (public_id payer_id : ℕ) (k : Text) (now deadline : Time) (db : Db)
      → Survives (is_due public_id now) (expire now)
      → ((current : Request) (db' : Db) → P db' → Submits payer_id k now deadline current db')
      → P db
      → P (submit_transaction up public_id payer_id k now deadline db).1
  unfolding submit_transaction submit_tx
  submit_transaction-cases up public_id payer_id k now deadline db due submits h =
      transact-After P db (submit_tx up public_id payer_id k now deadline db) h (
        After-bind P _ _ λ _ _. After-bind P _ _ λ _ _. After-bind P _ _ λ current _.
          After-bind_db P _ _ (expire_if_due-cases (up 2) public_id now _ current db due h)
            λ locked p.
              submit_or_repeat-cases up payer_id k now deadline locked.0 locked.1
                (submits locked.0 locked.1 p) p)

  pub recover_locked-cases :
      (up : Answers) (id : ℕ) (now : Time) (current : Request) (db : Db)
      → Survives (recovering id) (recover_row now)
      → P db
      → After P (recover_locked up id now current db)
  unfolding recover_locked
  recover_locked-cases up id now current db recovers h = After-bind P _ _ λ _ _.
      After-bind P _ _ λ _ _. After-bind P _ _ λ reserved _. After-bind P _ _ λ _ _.
        After-bind P _ _
          λ _ _. After-bind P _ _ λ row _. After-bind P _ _ λ _ _. After.done row _ (recovers db h)

  pub confirm_expired_recovery-cases :
      (up : Answers) (id : ℕ) (now : Time) (db : Db)
      → Survives (recovering id) (recover_row now)
      → P db
      → P (confirm_expired_recovery up id now db).1
  unfolding confirm_expired_recovery recover_tx
  confirm_expired_recovery-cases up id now db recovers h =
      transact-After P db (recover_tx up id now db) h (
        After-bind P _ _ λ _ _. After-bind P _ _ λ _ _. After-bind P _ _ λ current _.
          elim (Bool-cases (request_status_eq current.status RequestStatus.paid)) [
            | inl e ↦ rw e (After-bind P _ _ λ _ _. After.done current db h)
            | inr e ↦ rw e (recover_locked-cases up id now current db recovers h)
          ])

  -- The reads.
  pub get_by_public_id-cases :
      (up : Answers) (public_id : ℕ) (now : Time) (db : Db)
      → Survives (is_due public_id now) (expire now)
      → P db
      → P (get_by_public_id up public_id now db).1
  unfolding get_by_public_id
  get_by_public_id-cases up public_id now db due h = ground (arith, due db h)

  pub get_owned_by_public_id-cases :
      (up : Answers) (public_id creator_id : ℕ) (now : Time) (db : Db)
      → Survives (is_due public_id now) (expire now)
      → P db
      → P (get_owned_by_public_id up public_id creator_id now db).1
  unfolding get_owned_by_public_id
  get_owned_by_public_id-cases up public_id creator_id now db due h = ground (arith, due db h)

  pub list_by_creator-cases :
      (up : Answers) (creator_id : ℕ) (now : Time) (limit : ℕ) (db : Db)
      → Survives (creator_due creator_id now) (expire now)
      → P db
      → P (list_by_creator up creator_id now limit db).1
  unfolding list_by_creator
  list_by_creator-cases up creator_id now limit db due h = ground (arith, due db h)

  pub create-cases :
      (up : Answers) (request : Request) (db : Db)
      → (any (λ r. r.id == request.id || r.public_id == request.public_id) db.requests ≡ false
          → P (set_requests db (inserted request ∷ db.requests)))
      → P db
      → P (create up request db).1
  unfolding create ◌>>=◌
  create-cases up request db inserts h = ground (arith, inserts)
