-- ===== src/Purchases/Cases.antt =====
-- How each operation of the repository may change the tables: a property of the tables that
-- survives every UPDATE and INSERT of the operation survives the operation, whichever database call
-- fails.
use nim_near.Prelude.{
  ℕ, ◌≡◌, Bool, true, false, not, ◌&&◌, ◌||◌, Option, none, some, List, ◌∷◌, ◌==◌, Text, arith,
  update_where, find, any, returning, returning-found, require-eq-ok, or_fail-eq-ok, inl, inr,
  Bool-cases, Option-cases, ◌>>=◌,
}
use nim_near.Store.{
  Db, Answers, Time, Duration, EventRow, Purchase, PurchaseStatus, purchase_status_eq, Consumed,
  consume, event_purchase,
}
use nim_near.Store.After.{After, After-bind, After-bind_db, transact-After}
use nim_near.Purchases.Rows.{
  set_purchases, own_hold_lapsed, expire, get_active_for_event, active_for,
  sync_event_attendee_count, event_by_id, counted,
}
use nim_near.Purchases.Create.{
  event_hold_lapsed, new_purchase, insert_purchase, existing_or_new, create_tx, create,
}
use nim_near.Purchases.Submit.{
  submittable, submit_row, has_hash, is_resubmission, submit_locked, submit_tx, submit_transaction,
}
use nim_near.Purchases.Settle.{
  claimable, claim_row, claim_verification, is_stale, expire_unresolved_row, expire_unresolved,
  expire_unresolved_tx, in_flight_owned, settle_row, is_outcome_status, sync_if_confirmed,
  set_verification_state, set_verification_state_tx,
}
use nim_near.Purchases.Recover.{
  replacement, release_row, recovering, recover_row, confirm_row, recover_locked, recover_tx,
  confirm_expired_recovery,
}

module _ {ℓ} (P : Db → Type ℓ) where
  abbrev pub Survives : (Purchase → Bool) → (Purchase → Purchase) → Type ℓ
  Survives p f = (db : Db) → P db → P (set_purchases db (update_where p f db.purchases))

  -- P does not look at the counters of the events.
  abbrev pub IgnoresCounters : Type ℓ
  IgnoresCounters =
      (db : Db) (event n : ℕ) (clock : Time)
      → P db
      → P (record db { events = update_where (event_by_id event) (counted n clock) db.events })

  pub get_active_for_event-cases :
      (up : Answers) (event user : ℕ) (now : Time) (db : Db)
      → Survives (own_hold_lapsed event user now) (expire now)
      → P db
      → P (get_active_for_event up event user now db).1
  unfolding get_active_for_event
  get_active_for_event-cases up event user now db lapses h = ground (arith, lapses db h)

  -- What the INSERT of a new purchase has to keep.
  abbrev pub Inserts : ℕ → EventRow → ℕ → Time → Duration → Type ℓ
  Inserts id event user now hold =
      (db : Db)
      → any (λ p. p.id == id || active_for event.id user p) db.purchases ≡ false
      → P db
      → P (set_purchases db (new_purchase id event user now hold ∷ db.purchases))

  insert_purchase-cases :
      (up : Answers) (id : ℕ) (event : EventRow) (user : ℕ) (now : Time) (hold : Duration) (db : Db)
      → Inserts id event user now hold
      → P db
      → After P (insert_purchase up id event user now hold db)
  unfolding insert_purchase
  insert_purchase-cases up id event user now hold db inserts h = After-bind P _ _ λ _ _.
      After-bind P _ _ λ _ _. After-bind P _ _ λ _ fresh.
        After-bind P _ _
          λ _ _. After.done _ _ (inserts db (ground (arith, require-eq-ok _ _ fresh)) h)

  existing_or_new-cases :
      (up : Answers) (id : ℕ) (event : EventRow) (user : ℕ) (now : Time) (hold : Duration) (db : Db)
      (found : Option Purchase)
      → Inserts id event user now hold
      → P db
      → After P (existing_or_new up id event user now hold db found)
  unfolding existing_or_new
  existing_or_new-cases up id event user now hold db (some p) inserts h =
      After-bind P _ _ λ _ _. After.done p db h
  existing_or_new-cases up id event user now hold db none inserts h =
      insert_purchase-cases up id event user now hold db inserts h

  pub create-cases :
      (up : Answers) (id event_id user : ℕ) (now : Time) (hold : Duration) (db : Db)
      → Survives (event_hold_lapsed event_id now) (expire now)
      → ((event : EventRow) → Inserts id event user now hold)
      → P db
      → P (create up id event_id user now hold db).1
  unfolding create create_tx
  create-cases up id event_id user now hold db lapses inserts h =
      transact-After P db (create_tx up id event_id user now hold db) h (
        After-bind P _ _ λ _ _. After-bind P _ _ λ _ _. After-bind P _ _ λ event _.
          After-bind P _ _ λ _ _. After-bind P _ _ λ _ _. After-bind P _ _ λ _ _.
            After-bind P _ _ λ _ _.
              existing_or_new-cases up id event user now hold _ _ (inserts event) (lapses db h))

  -- What the writes of an accepted submission have to keep.
  abbrev pub Submits : ℕ → ℕ → Text → Time → Time → Db → Type ℓ
  Submits id user k now deadline db =
      (consumed : List Consumed)
      → any (λ p. not (p.id == id) && has_hash k p) db.purchases ≡ false
      → consume k event_purchase id now db.consumed ≡ some consumed
      → P (record db {
        purchases = update_where (submittable id user) (submit_row k now deadline) db.purchases;
        consumed = consumed;
      })

  submit_locked-cases :
      (up : Answers) (id user : ℕ) (k : Text) (now deadline : Time) (current : Purchase) (db : Db)
      → Submits id user k now deadline db
      → After P (submit_locked up id user k now deadline current db)
  unfolding submit_locked
  submit_locked-cases up id user k now deadline current db submits = After-bind P _ _ λ _ _.
      After-bind P _ _ λ event _. After-bind P _ _ λ _ _. After-bind P _ _ λ _ _.
        After-bind P _ _ λ _ _. After-bind P _ _ λ row found. After-bind P _ _ λ _ fresh.
          After-bind P _ _ λ _ _. After-bind P _ _ λ consumed e. After-bind P _ _ λ _ _.
            After.done row _ (
              submits consumed (ground (arith, require-eq-ok _ _ fresh))
                (submitted_id (or_fail-eq-ok _ _ found) (or_fail-eq-ok _ _ e)))
    where
      submitted_id :
          {row : Purchase} {consumed : List Consumed}
          → returning (submittable id user) (submit_row k now deadline) db.purchases ≡ some row
          → consume k event_purchase row.id now db.consumed ≡ some consumed
          → consume k event_purchase id now db.consumed ≡ some consumed
      submitted_id found e =
          let (r, p, q) =
            returning-found (submittable id user) (submit_row k now deadline) db.purchases found in
          ground arith

  pub submit_transaction-cases :
      (up : Answers) (id user : ℕ) (k : Text) (now deadline : Time) (db : Db)
      → Submits id user k now deadline db
      → P db
      → P (submit_transaction up id user k now deadline db).1
  unfolding submit_transaction submit_tx
  submit_transaction-cases up id user k now deadline db submits h =
      transact-After P db (submit_tx up id user k now deadline db) h (
        After-bind P _ _ λ _ _. After-bind P _ _ λ _ _. After-bind P _ _ λ current _.
          elim (Bool-cases (is_resubmission k current)) [
            | inl e ↦ rw e (After-bind P _ _ λ _ _. After.done current db h)
            | inr e ↦ rw e (submit_locked-cases up id user k now deadline current db submits)
          ])

  pub claim_verification-cases :
      (up : Bool) (id user : ℕ) (now : Time) (retry claim : Duration) (force : Bool) (db : Db)
      → Survives (claimable id user now retry force) (claim_row now claim)
      → P db
      → P (claim_verification up id user now retry claim force db).1
  unfolding claim_verification ◌>>=◌
  claim_verification-cases up id user now retry claim force db claims h =
      ground (arith, claims db h)

  pub expire_unresolved-cases :
      (up : Answers) (id user : ℕ) (now : Time) (fallback : Duration) (db : Db)
      → Survives (is_stale id user now fallback) (expire_unresolved_row now)
      → P db
      → P (expire_unresolved up id user now fallback db).1
  unfolding expire_unresolved expire_unresolved_tx ◌>>=◌
  expire_unresolved-cases up id user now fallback db expires h = ground (arith, expires db h)

  sync-cases :
      (up : Bool) (event : ℕ) (clock : Time) (db : Db)
      → IgnoresCounters
      → P db
      → After P (sync_event_attendee_count up event clock db)
  unfolding sync_event_attendee_count
  sync-cases up event clock db ignores h =
      After-bind P _ _
        λ _ _. After-bind P _ _ λ _ _. After-bind P _ _ λ _ _. After.done _ _ (ignores db _ _ _ h)

  sync_if_confirmed-cases :
      (up : Bool) (status : PurchaseStatus) (event : ℕ) (clock : Time) (db : Db)
      → IgnoresCounters
      → P db
      → After P (sync_if_confirmed up status event clock db)
  unfolding sync_if_confirmed
  sync_if_confirmed-cases up status event clock db ignores h =
      elim (Bool-cases (purchase_status_eq status PurchaseStatus.confirmed)) [
        | inl e ↦ rw e (
            After-bind_db P _ _ (sync-cases up event clock db ignores h) λ r p. After.done tt r.1 p)
        | inr e ↦ rw e (After.done tt db h)
      ]

  pub set_verification_state-cases :
      (up : Answers) (id user : ℕ) (status : PurchaseStatus) (now clock : Time) (db : Db)
      → IgnoresCounters
      → (is_outcome_status status ≡ true
          → Survives (in_flight_owned id user) (settle_row status now))
      → P db
      → P (set_verification_state up id user status now clock db).1
  unfolding set_verification_state set_verification_state_tx
  set_verification_state-cases up id user status now clock db ignores settles h =
      transact-After P db (set_verification_state_tx up id user status now clock db) h (
        After-bind P _ _ λ _ outcome. After-bind P _ _ λ _ _. After-bind P _ _ λ known _.
          After-bind P _ _ λ _ _. After-bind P _ _ λ _ _. After-bind P _ _ λ event _.
            After-bind P _ _ λ _ _.
              elim (Option-cases (find (in_flight_owned id user) db.purchases)) [
                | inl e ↦ rw e (After-bind P _ _ λ p _. After.done p db h)
                | inr (p, e) ↦ rw e (
                    After-bind_db P _ _
                      (sync_if_confirmed-cases (up 4) status p.event_id clock _ ignores
                        (settles (require-eq-ok _ _ outcome) db h))
                      λ r k. After-bind P _ _ λ _ _. After.done _ r.1 k)
              ])

  confirm_row-cases :
      (up : Answers) (id user : ℕ) (now clock : Time) (db : Db)
      → IgnoresCounters
      → Survives (recovering id user) (recover_row now)
      → P db
      → After P (confirm_row up id user now clock db)
  unfolding confirm_row
  confirm_row-cases up id user now clock db ignores recovers h = After-bind P _ _ λ _ _.
      After-bind P _ _ λ row _. After-bind P _ _ λ _ _.
        After-bind_db P _ _ (sync-cases (up 6) row.event_id clock _ ignores (recovers db h))
          λ r k. After-bind P _ _ λ _ _. After.done row r.1 k

  recover_locked-cases :
      (up : Answers) (id user : ℕ) (now clock : Time) (current : Purchase) (db : Db)
      → IgnoresCounters
      → Survives (recovering id user) (recover_row now)
      → Survives (replacement current.event_id user current.id) (release_row now)
      → P db
      → After P (recover_locked up id user now clock current db)
  unfolding recover_locked
  recover_locked-cases up id user now clock current db ignores recovers releases h =
      After-bind P _ _ λ _ _. After-bind P _ _ λ _ _. After-bind P _ _ λ reserved _.
        After-bind P _ _ λ _ _.
          After-bind P _ _
            λ _ _. confirm_row-cases up id user now clock _ ignores recovers (releases db h)

  pub confirm_expired_recovery-cases :
      (up : Answers) (id user : ℕ) (now clock : Time) (db : Db)
      → IgnoresCounters
      → Survives (recovering id user) (recover_row now)
      → ((current : Purchase)
          → Survives (replacement current.event_id user current.id) (release_row now))
      → P db
      → P (confirm_expired_recovery up id user now clock db).1
  unfolding confirm_expired_recovery recover_tx
  confirm_expired_recovery-cases up id user now clock db ignores recovers releases h =
      transact-After P db (recover_tx up id user now clock db) h (
        After-bind P _ _ λ _ _. After-bind P _ _ λ _ _. After-bind P _ _ λ current _.
          elim (Bool-cases (purchase_status_eq current.status PurchaseStatus.confirmed)) [
            | inl e ↦ rw e (After-bind P _ _ λ _ _. After.done current db h)
            | inr e ↦ rw e (
                recover_locked-cases up id user now clock current db ignores recovers
                  (releases current) h)
          ])
