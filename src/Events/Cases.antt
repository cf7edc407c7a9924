-- ===== src/Events/Cases.antt =====
-- How each operation on participation and on events may change the tables: a property of the tables
-- that survives its writes survives the operation, whichever database call fails.
use nim_near.Prelude.{
  ℕ, ◌≡◌, Bool, true, false, Option, some, ◌∷◌, ◌==◌, arith, inl, inr, Bool-cases, ok, ◌>>=◌,
  update_where, find, any, require-eq-ok, or_fail-eq-ok,
}
use nim_near.Store.{Db, Answers, Time, EventRow, is_cancelled}
use nim_near.Store.After.{After, After-bind, After-bind_db, transact-After}
use nim_near.Purchases.Rows.{sync_event_attendee_count, event_by_id}
use nim_near.Purchases.Create.{active_attendees, on_sale}
use nim_near.Purchases.Cases.{IgnoresCounters}
use nim_near.Events.View.{is_full}
use nim_near.Events.Participation.{
  lock_event, capacity_occupied_count, is_attending, set_participants, without, join, rsvp_locked,
  rsvp_tx, rsvp, cancel_tx,
}
use nim_near.Events.Participation as Participation
use nim_near.Events.Lifecycle.{
  Patch, set_events, read_back, create, update_owned, update_owned_tx, cancel, organized, patched,
  cancelled_row,
}
use nim_near.Events.Lifecycle as Lifecycle
use nim_near.Events.Calls.{written}

pub locked_row :
    (b : Bool) (e : ℕ) (db : Db) (row : EventRow)
    → lock_event b e db ≡ ok row
    → find (on_sale e) db.events ≡ some row
unfolding lock_event ◌>>=◌
locked_row true e db row k = or_fail-eq-ok _ _ k
locked_row false e db row k = cc

counted_room :
    (b : Bool) (e : ℕ) (clock : Time) (o : Option ℕ) (db : Db) (occupied : ℕ)
    → capacity_occupied_count b e clock db ≡ ok occupied
    → is_full o occupied ≡ false
    → is_full o (active_attendees e clock db) ≡ false
unfolding capacity_occupied_count ◌>>=◌
counted_room b e clock o db occupied counted room = ground arith

module _ {ℓ} (P : Db → Type ℓ) where
  abbrev pub SurvivesEvents : (EventRow → Bool) → (EventRow → EventRow) → Type ℓ
  SurvivesEvents p f = (db : Db) → P db → P (set_events db (update_where p f db.events))

  sync-cases :
      (up : Bool) (e : ℕ) (clock : Time) (db : Db)
      → IgnoresCounters P
      → P db
      → After P (sync_event_attendee_count up e clock db)
  unfolding sync_event_attendee_count
  sync-cases up e clock db counters h = After-bind P _ _ λ _ _.
      After-bind P _ _ λ _ _. After-bind P _ _ λ _ _. After.done _ _ (counters db _ _ clock h)

  module _ (up : Answers) (e user : ℕ) (now clock : Time) (db : Db) (counters : IgnoresCounters P)
      (h : P db) where
    -- What the INSERT of a participant has to keep, for the event that was locked.
    abbrev pub Joins : EventRow → Type ℓ
    Joins row =
        (db' : Db)
        → is_full row.capacity (active_attendees e clock db') ≡ false
        → P db'
        → P (set_participants db' (record { event_id = e; user_id = user } ∷ db'.participants))

    join-cases :
        (o : Option ℕ) (db' : Db)
        → P (set_participants db' (record { event_id = e; user_id = user } ∷ db'.participants))
        → After P (join up e user clock o db')
    unfolding join
    join-cases o db' k = After-bind P _ _ λ _ _.
        After-bind_db P _ _ (sync-cases (up 6) e clock _ counters k)
          λ r m. After-bind P _ _ λ _ _. After-bind P _ _ λ _ _. After.done _ r.1 m

    rsvp_locked-cases :
        (row : EventRow) → Joins row → After P (rsvp_locked up e user clock row.capacity db)
    unfolding rsvp_locked
    rsvp_locked-cases row joins = After-bind P _ _ λ _ _.
        After-bind_db P _ _ (sync-cases (up 3) e clock db counters h) λ r m.
          After-bind P _ _ λ occupied counted. elim (Bool-cases (is_attending e user db)) [
            | inl b ↦ rw b (After-bind P _ _ λ _ _. After.done _ r.1 m)
            | inr b ↦ rw b (
                After-bind P _ _ λ _ room. join-cases row.capacity r.1 (
                  joins r.1
                    (counted_room (up 4) e clock row.capacity r.1 occupied counted
                      (ground (arith, require-eq-ok _ _ room)))
                    m))
          ]

    pub rsvp-cases :
        ((row : EventRow)
          → find (on_sale e) db.events ≡ some row
          → (row.price_lunas == 0) ≡ true
          → Joins row)
        → P (rsvp up e user now clock db).1
    unfolding rsvp rsvp_tx
    rsvp-cases joins = transact-After P db (rsvp_tx up e user now clock db) h (
        After-bind P _ _ λ _ _. After-bind P _ _ λ row found. After-bind P _ _ λ _ _.
          After-bind P _ _ λ _ free.
            rsvp_locked-cases row
              (joins row (locked_row (up 1) e db row found) (require-eq-ok _ _ free)))

    pub leave-cases : P (without e user db) → P (Participation.cancel up e user clock db).1
    unfolding Participation.cancel cancel_tx
    leave-cases left = transact-After P db (cancel_tx up e user clock db) h (
        After-bind P _ _ λ _ _. After-bind P _ _ λ _ _. After-bind P _ _ λ _ _.
          After-bind_db P _ _ (sync-cases (up 3) e clock _ counters left)
            λ r m. After-bind P _ _ λ _ _. After-bind P _ _ λ _ _. After.done _ r.1 m)

  read_back-cases :
      (b b' : Bool) (e : ℕ) (clock : Time) (db : Db) → P db → After P (read_back b b' e clock db)
  unfolding read_back
  read_back-cases b b' e clock db h =
      After-bind P _ _ λ _ _. After-bind P _ _ λ _ _. After-bind P _ _ λ _ _. After.done _ db h

  pub open-cases :
      (up : Bool) (e : EventRow) (db : Db)
      → (any (event_by_id e.id) db.events ≡ false → P (set_events db (e ∷ db.events)))
      → P db
      → P (written db (create up e db))
  unfolding create ◌>>=◌
  open-cases up e db inserts h = elim (Bool-cases (any (event_by_id e.id) db.events)) [
    | inl x ↦ ground (arith, x, h)
    | inr x ↦ ground (arith, x, h, inserts x)
  ]

  pub close-cases :
      (up : Answers) (e : ℕ) (organizer : Option ℕ) (now clock : Time) (db : Db)
      → SurvivesEvents (event_by_id e) (cancelled_row now)
      → P db
      → P (cancel up e organizer now clock db).1
  unfolding cancel Lifecycle.cancel_tx
  close-cases up e organizer now clock db closes h =
      transact-After P db (Lifecycle.cancel_tx up e organizer now clock db) h (
        After-bind P _ _ λ _ _. After-bind P _ _ λ _ _. After-bind P _ _ λ current _.
          elim (Bool-cases (is_cancelled current.status)) [
            | inl x ↦ rw x (After-bind P _ _ λ _ _. After.done _ db h)
            | inr x ↦
                rw x (After-bind P _ _ λ _ _. read_back-cases (up 3) (up 4) e clock _ (closes db h))
          ])

  pub update-cases :
      (up : Answers) (e organizer : ℕ) (patch : Patch) (now clock : Time) (db : Db)
      → SurvivesEvents (organized e organizer) (patched patch now)
      → P db
      → P (update_owned up e organizer patch now clock db).1
  unfolding update_owned update_owned_tx
  update-cases up e organizer patch now clock db updates h =
      transact-After P db (update_owned_tx up e organizer patch now clock db) h (
        After-bind P _ _ λ _ _. After-bind P _ _ λ _ _. After-bind P _ _ λ current _.
          After-bind P _ _ λ _ _. After-bind P _ _ λ _ _. After-bind P _ _ λ _ _.
            After-bind P _ _ λ _ _.
              After-bind P _ _ λ _ _.
                After-bind P _ _ λ _ _. read_back-cases (up 5) (up 6) e clock _ (updates db h))
