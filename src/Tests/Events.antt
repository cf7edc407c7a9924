-- ===== src/Tests/Events.antt =====
-- Events at concrete inputs: a paid one of one seat, and a free one.
use nim_near.Prelude.{
  ◌≡◌, refl, true, false, some, [], ◌∷◌, List, arith, ok, Survive, find, any, select, ◌>>=◌,
  update_where,
}
use nim_near.Store.{Db, EventRow, row_allowed}
use nim_near.Purchases.Rows.{
  contains, count_distinct, participant_ids, buyer_ids, effective_attendees,
  sync_event_attendee_count,
}
use nim_near.Purchases.Create.{active_attendees}
use nim_near.Purchases.Calls as PurchaseCalls
use nim_near.Tests.Payments.{up, an_event, a_db}
use nim_near.Events.Seats.{seats}
use nim_near.Events.Calls.{Call, on_purchase, joins, opens, closes, run}
use nim_near.Events.Capped.{IsCapped}
use nim_near.Events.Within.{run-IsCapped}
use nim_near.Events.Kept.{Moves, events-Survive}
use nim_near.Events.Participation.{
  State, lock_event, capacity_occupied_count, is_attending, join, rsvp_locked, rsvp, rsvp_tx,
  cancel, cancel_tx, is_sold_out_tx,
}
use nim_near.Events.Rsvp.{IsJoined, rsvp-IsJoined, IsLeft, cancel-IsLeft, cancel-rsvp}

a_db-IsCapped : IsCapped 3 1 500 a_db
unfolding find seats count_distinct participant_ids buyer_ids
a_db-IsCapped = record {
  keyed = (tt, tt);
  row = an_event;
  found = refl;
  same_capacity = refl;
  same_price = refl;
  within = omega arith;
  idle = λ e. cc;
}

abbrev free_event : EventRow
free_event = record an_event { id = 4; price_lunas = 0; capacity = some 2 }

abbrev calls : List Call
calls =
    on_purchase (PurchaseCalls.creates up 8 3 2 10 100)
    ∷ on_purchase (PurchaseCalls.creates up 9 3 5 20 100)
    ∷ opens true free_event
    ∷ joins up 4 2 30 30
    ∷ closes up 3 (some 1) 40 40
    ∷ []

run-IsCapped_example : IsCapped 3 1 500 (run calls a_db)
run-IsCapped_example =
    run-IsCapped 3 1 500 calls a_db (refl, (refl, (refl, (refl, (refl, tt))))) a_db-IsCapped

events-Survive_example : Survive Moves a_db.events (run calls a_db).events
events-Survive_example = events-Survive calls a_db

abbrev free_db : Db
free_db = record a_db { events = free_event ∷ [] }

abbrev joined_event : EventRow
joined_event = record free_event { attendee_count = 1; updated_at = 30 }

abbrev joined_db : Db
joined_db = record free_db {
  events = joined_event ∷ [];
  participants = record { event_id = 4; user_id = 2 } ∷ [];
}

abbrev joined : State
joined = record {
  event_id = 4;
  attending = true;
  attendee_count = 1;
  capacity = some 2;
  sold_out = false;
}

rsvp_run : rsvp up 4 2 25 30 free_db ≡ (ok joined, joined_db)
unfolding rsvp rsvp_tx ◌>>=◌ lock_event find rsvp_locked sync_event_attendee_count row_allowed
    effective_attendees capacity_occupied_count is_attending any active_attendees join update_where
    count_distinct participant_ids buyer_ids contains
rsvp_run = refl

abbrev left_db : Db
left_db = record free_db { events = record free_event { updated_at = 35 } ∷ [] }

abbrev left : State
left = record {
  event_id = 4;
  attending = false;
  attendee_count = 0;
  capacity = some 2;
  sold_out = false;
}

cancel_run : cancel up 4 2 35 joined_db ≡ (ok left, left_db)
unfolding cancel cancel_tx ◌>>=◌ lock_event find sync_event_attendee_count row_allowed
    effective_attendees select is_sold_out_tx update_where capacity_occupied_count active_attendees
    count_distinct participant_ids buyer_ids contains
cancel_run = refl

rsvp-IsJoined_example : IsJoined 4 2 25 free_db joined joined_db
rsvp-IsJoined_example = rsvp-IsJoined up 4 2 25 30 free_db joined_db joined rsvp_run

cancel-IsLeft_example : IsLeft 4 2 joined_db left left_db
cancel-IsLeft_example = cancel-IsLeft up 4 2 35 joined_db left_db left cancel_run

cancel-rsvp_example : left_db.participants ≡ free_db.participants
unfolding is_attending any
cancel-rsvp_example =
    cancel-rsvp up up 4 2 25 30 35 free_db joined_db left_db joined left refl rsvp_run cancel_run
