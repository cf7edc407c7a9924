-- ===== src/Events/View.antt =====
-- event_repository.go: eventProjection, which computes the attendees of an event from the tables.
use nim_near.Prelude.{ℕ, Bool, ◌||◌, Option, leb, exists}
use nim_near.Store.{Db, Time, EventRow}
use nim_near.Purchases.Rows.{effective_attendees}
use nim_near.Purchases.Create.{active_attendees}

-- model.Event as the repository reads it: the row with the counted attendees, and SoldOut.
pub record Event : Type 0 where
  pub row : EventRow
  pub sold_out : Bool

-- capacity IS NOT NULL AND occupied >= capacity
abbrev pub is_full : Option ℕ → ℕ → Bool
is_full capacity occupied = exists (λ c. leb c occupied) capacity

-- `clock` is NOW().
abbrev pub project : Time → Db → EventRow → Event
project clock db e = record {
  row = record e { attendee_count = effective_attendees e.id db };
  sold_out = is_full e.capacity (active_attendees e.id clock db);
}

-- Event.IsSoldOut
abbrev pub is_sold_out : Event → Bool
is_sold_out e = e.sold_out || is_full e.row.capacity e.row.attendee_count
