-- ===== src/Events/Rsvp.antt =====
-- What RSVP and Cancel answer, and that they undo each other.
use nim_near.Prelude.{
  ℕ, ◌∙◌, ◌≡◌, refl, ap, Bool, true, false, not, List, [], ◌∷◌, arith, inl, inr, Bool-cases, ok,
  if◌then◌else◌, find, any, select, require-eq-ok, some, ◌<◌,
}
use nim_near.Store.{Db, Answers, Time, EventRow, Participant}
use nim_near.Store.Yields.{Yields, Yields-bind, Yields-ok, transact-Yields}
use nim_near.Purchases.Rows.{sync_event_attendee_count, effective_attendees}
use nim_near.Purchases.Create.{on_sale}
use nim_near.Events.Cases.{locked_row}
use nim_near.Events.Participation.{
  State, is_join, is_attending, join, rsvp_locked, rsvp_tx, rsvp, cancel_tx, cancel,
}

-- The tables after the counter of the event was set: the participants and the purchases are as they
-- were, and the count is that of the tables.
record IsSynced (e : ℕ) (db : Db) (n : ℕ) (db' : Db) : Type 0 where
  same_participants : db'.participants ≡ db.participants
  same_purchases : db'.purchases ≡ db.purchases
  exact : n ≡ effective_attendees e db'

sync-IsSynced :
    (up : Bool) (e : ℕ) (clock : Time) (db : Db) (r : ℕ × Db)
    → sync_event_attendee_count up e clock db ≡ ok r
    → IsSynced e db r.0 r.1
unfolding sync_event_attendee_count effective_attendees
sync-IsSynced up e clock db r h =
    Yields-ok (IsSynced e db) (sync_event_attendee_count up e clock db) r
      (Yields-bind (IsSynced e db) _ _ λ _ _. Yields-bind (IsSynced e db) _ _ λ _ _.
        Yields-bind (IsSynced e db) _ _ λ _ _.
          Yields.done _ _
            (record { same_participants = refl; same_purchases = refl; exact = refl }))
      h

abbrev with_user : ℕ → ℕ → List Participant → List Participant
with_user e user ps = record { event_id = e; user_id = user } ∷ ps

-- What a successful RSVP answers and leaves.
pub record IsJoined (e user : ℕ) (now : Time) (db : Db) (s : State) (db' : Db) : Type 0 where
  pub event : EventRow
  pub published : find (on_sale e) db.events ≡ some event
  pub upcoming : now < event.ends_at
  pub free : event.price_lunas ≡ 0
  pub attending : s.attending ≡ true
  pub joined :
      db'.participants
      ≡ (if is_attending e user db then db.participants else with_user e user db.participants)
  pub same_purchases : db'.purchases ≡ db.purchases
  pub exact : s.attendee_count ≡ effective_attendees e db'

module _ (up : Answers) (e user : ℕ) (now clock : Time) (db : Db) (event : EventRow)
    (published : find (on_sale e) db.events ≡ some event) (upcoming : now < event.ends_at)
    (free : event.price_lunas ≡ 0) where
  abbrev Q : State → Db → Type 0
  Q = IsJoined e user now db

  join-IsJoined :
      (n : ℕ) (db' : Db)
      → IsSynced e db n db'
      → is_attending e user db ≡ false
      → Yields Q (join up e user clock event.capacity db')
  unfolding join
  join-IsJoined n db' m b = Yields-bind Q _ _ λ _ _. Yields-bind Q _ _ λ r synced.
      Yields-bind Q _ _ λ _ _. Yields-bind Q _ _ λ _ _.
        let t = sync-IsSynced (up 6) e clock _ r synced in
        Yields.done _ r.1 (record {
          event = event;
          published = published;
          upcoming = upcoming;
          free = free;
          attending = refl;
          joined = rw b (t.same_participants ∙ ap (with_user e user) m.same_participants);
          same_purchases = t.same_purchases ∙ m.same_purchases;
          exact = t.exact;
        })

  rsvp_locked-IsJoined : Yields Q (rsvp_locked up e user clock event.capacity db)
  unfolding rsvp_locked
  rsvp_locked-IsJoined = Yields-bind Q _ _ λ _ _. Yields-bind Q _ _ λ r synced.
      Yields-bind Q _ _ λ _ _.
        let m = sync-IsSynced (up 3) e clock db r synced in
        elim (Bool-cases (is_attending e user db)) [
          | inr b ↦ rw b (Yields-bind Q _ _ λ _ _. join-IsJoined r.0 r.1 m b)
          | inl b ↦ rw b (
              Yields-bind Q _ _ λ _ _. Yields.done _ r.1 (record {
                event = event;
                published = published;
                upcoming = upcoming;
                free = free;
                attending = refl;
                joined = rw b m.same_participants;
                same_purchases = m.same_purchases;
                exact = m.exact;
              }))
        ]

-- When RSVP succeeds, the event is public, published, free and not over; the user attends it, and
-- is added to the participants exactly if they were not among them; no purchase has changed; and
-- the count in the answer is that of the attendees in the tables that it leaves.
pub rsvp-IsJoined :
    (up : Answers) (e user : ℕ) (now clock : Time) (db db' : Db) (s : State)
    → rsvp up e user now clock db ≡ (ok s, db')
    → IsJoined e user now db s db'
unfolding rsvp rsvp_tx
rsvp-IsJoined up e user now clock db db' s h =
    let Q : State → Db → Type 0 = IsJoined e user now db in
    transact-Yields Q db db' (rsvp_tx up e user now clock db) s
      (Yields-bind Q _ _ λ _ _. Yields-bind Q _ _ λ event found. Yields-bind Q _ _ λ _ upcoming.
        Yields-bind Q _ _ λ _ free.
          rsvp_locked-IsJoined up e user now clock db event (locked_row (up 1) e db event found)
            (ground (arith, require-eq-ok _ _ upcoming)) (ground (arith, require-eq-ok _ _ free)))
      h

-- What a successful Cancel answers and leaves.
pub record IsLeft (e user : ℕ) (db : Db) (s : State) (db' : Db) : Type 0 where
  pub attending : s.attending ≡ false
  pub left : db'.participants ≡ select (λ p. not (is_join e user p)) db.participants
  pub same_purchases : db'.purchases ≡ db.purchases
  pub exact : s.attendee_count ≡ effective_attendees e db'

-- When Cancel succeeds, it has removed the user's own participations in the event and no other row;
-- no purchase has changed; and the count in the answer is that of the attendees in the tables that
-- it leaves.
pub cancel-IsLeft :
    (up : Answers) (e user : ℕ) (clock : Time) (db db' : Db) (s : State)
    → cancel up e user clock db ≡ (ok s, db')
    → IsLeft e user db s db'
unfolding cancel cancel_tx
cancel-IsLeft up e user clock db db' s h =
    let Q : State → Db → Type 0 = IsLeft e user db in
    transact-Yields Q db db' (cancel_tx up e user clock db) s
      (Yields-bind Q _ _ λ _ _. Yields-bind Q _ _ λ row _. Yields-bind Q _ _ λ _ _.
        Yields-bind Q _ _ λ r synced. Yields-bind Q _ _ λ _ _. Yields-bind Q _ _ λ _ _.
          let m = sync-IsSynced (up 3) e clock _ r synced in
          Yields.done _ r.1 (record {
            attending = refl;
            left = m.same_participants;
            same_purchases = m.same_purchases;
            exact = m.exact;
          }))
      h

select-others :
    (e user : ℕ) (ps : List Participant)
    → any (is_join e user) ps ≡ false
    → select (λ p. not (is_join e user p)) ps ≡ ps
unfolding any select
select-others e user [] h = refl
select-others e user (p ∷ ps) h = ground (arith, h, select-others e user ps)

-- Cancel undoes RSVP: if a user who is not among the participants of the event joins it and leaves
-- it again, the participants are what they were before.
pub cancel-rsvp :
    (up up' : Answers) (e user : ℕ) (now clock clock' : Time) (db joined left : Db) (s t : State)
    → is_attending e user db ≡ false
    → rsvp up e user now clock db ≡ (ok s, joined)
    → cancel up' e user clock' joined ≡ (ok t, left)
    → left.participants ≡ db.participants
unfolding is_attending select
cancel-rsvp up up' e user now clock clock' db joined left s t new h k =
    let j = rsvp-IsJoined up e user now clock db joined s h in
    let l = cancel-IsLeft up' e user clock' joined left t k in
    ground (arith, j.joined, l.left, new, select-others e user db.participants new)
