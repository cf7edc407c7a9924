-- ===== src/Events/Participation.antt =====
-- participation_repository.go: ParticipationRepo.
use nim_near.Prelude.{
  ℕ, Bool, true, false, not, ◌&&◌, Option, none, some, List, ◌∷◌, leb, ◌==◌, if◌then◌else◌, Result,
  ok, plain, internal, not_found, event_past, paid_event, sold_out, require, or_fail, ◌>>=◌, ◌>>◌,
  find, any, select,
}
use nim_near.Store.{Db, Answers, transact, Time, Participant, EventRow}
use nim_near.Purchases.Rows.{effective_attendees, event_by_id, sync_event_attendee_count}
use nim_near.Purchases.Create.{active_attendees, on_sale}
use nim_near.Events.View.{is_full}

-- model.State
pub record State : Type 0 where
  pub event_id : ℕ
  pub attending : Bool
  pub attendee_count : ℕ
  pub capacity : Option ℕ
  pub sold_out : Bool

-- event_id = $1 AND user_id = $2
abbrev pub is_join : ℕ → ℕ → Participant → Bool
is_join event user p = p.event_id == event && p.user_id == user

unfoldable pub is_attending : ℕ → ℕ → Db → Bool
is_attending event user db = any (is_join event user) db.participants

abbrev pub set_participants : Db → List Participant → Db
set_participants db rows = record db { participants = rows }

-- lockEvent: of the event, the code keeps the capacity and the two tests that RSVP makes of it.
unfoldable pub lock_event : Bool → ℕ → Db → Result EventRow
lock_event up event db =
    require up (plain internal) >> or_fail (find (on_sale event) db.events) (plain not_found)

-- capacityOccupiedCount, whose clock is NOW().
unfoldable pub capacity_occupied_count : Bool → ℕ → Time → Db → Result ℕ
capacity_occupied_count up event clock db =
    require up (plain internal) >> ok (active_attendees event clock db)

-- The INSERT, whose constraint of unique pairs RSVP has tested before, and the counts after it.
unfoldable pub join : Answers → ℕ → ℕ → Time → Option ℕ → Db → Result (State × Db)
join up event user clock capacity db = do
  require (up 5) (plain internal)
  let joined = set_participants db (record { event_id = event; user_id = user } ∷ db.participants)
  synced ← sync_event_attendee_count (up 6) event clock joined
  occupied ← capacity_occupied_count (up 7) event clock synced.1
  require (up 8) (plain internal)
  ok (
    record {
      event_id = event;
      attending = true;
      attendee_count = synced.0;
      capacity = capacity;
      sold_out = is_full capacity occupied;
    },
    synced.1,
  )

unfoldable pub rsvp_locked : Answers → ℕ → ℕ → Time → Option ℕ → Db → Result (State × Db)
rsvp_locked up event user clock capacity db = do
  require (up 2) (plain internal)
  synced ← sync_event_attendee_count (up 3) event clock db
  occupied ← capacity_occupied_count (up 4) event clock synced.1
  if is_attending event user db
      then (require (up 5) (plain internal)
          >> ok (
            record {
              event_id = event;
              attending = true;
              attendee_count = synced.0;
              capacity = capacity;
              sold_out = is_full capacity occupied;
            },
            synced.1,
          ))
      else (require (not (is_full capacity occupied)) (plain sold_out)
          >> join up event user clock capacity synced.1)

unfoldable pub rsvp_tx : Answers → ℕ → ℕ → Time → Time → Db → Result (State × Db)
rsvp_tx up event user now clock db = do
  require (up 0) (plain internal)
  row ← lock_event (up 1) event db
  require (not (leb row.ends_at now)) (plain event_past)
  require (row.price_lunas == 0) (plain paid_event)
  rsvp_locked up event user clock row.capacity db

-- RSVP
unfoldable pub rsvp : Answers → ℕ → ℕ → Time → Time → Db → Result State × Db
rsvp up event user now clock db = transact db (rsvp_tx up event user now clock db)

-- isSoldOutTx
unfoldable pub is_sold_out_tx : Bool → Bool → ℕ → Time → Db → Result Bool
is_sold_out_tx up up' event clock db = do
  require up (plain internal)
  row ← or_fail (find (event_by_id event) db.events) (plain internal)
  elim row.capacity [
    | none ↦ ok false
    | some c ↦
        capacity_occupied_count up' event clock db >>= (λ occupied. ok (is_full (some c) occupied))
  ]

-- DELETE FROM event_participants
abbrev pub without : ℕ → ℕ → Db → Db
without event user db =
    set_participants db (select (λ p. not (is_join event user p)) db.participants)

unfoldable pub cancel_tx : Answers → ℕ → ℕ → Time → Db → Result (State × Db)
cancel_tx up event user clock db = do
  require (up 0) (plain internal)
  row ← lock_event (up 1) event db
  require (up 2) (plain internal)
  synced ← sync_event_attendee_count (up 3) event clock (without event user db)
  full ← is_sold_out_tx (up 4) (up 5) event clock synced.1
  require (up 6) (plain internal)
  ok (
    record {
      event_id = event;
      attending = false;
      attendee_count = synced.0;
      capacity = row.capacity;
      sold_out = full;
    },
    synced.1,
  )

-- Cancel
unfoldable pub cancel : Answers → ℕ → ℕ → Time → Db → Result State × Db
cancel up event user clock db = transact db (cancel_tx up event user clock db)

-- GetState
unfoldable pub get_state : Bool → ℕ → ℕ → Time → Db → Result State
get_state up event user clock db = do
  require up (plain internal)
  row ← or_fail (find (on_sale event) db.events) (plain not_found)
  ok (record {
    event_id = event;
    attending = is_attending event user db;
    attendee_count = effective_attendees event db;
    capacity = row.capacity;
    sold_out = is_full row.capacity (active_attendees event clock db);
  })
