-- ===== src/Events/Lifecycle.antt =====
-- event_repository.go: Create, UpdateOwned, CancelOwned and Cancel.
use nim_near.Prelude.{
  ℕ, Bool, true, false, not, ◌&&◌, ◌||◌, Option, none, some, ◌∷◌, ltb, leb, ◌==◌, if◌then◌else◌,
  exists, is_none, coalesce, Text, Result, ok, plain, internal, not_found, conflict, validation,
  require, or_fail, ◌>>=◌, ◌>>◌, find, any, update_where,
}
use nim_near.Store.{
  Db, Answers, transact, Time, EventRow, EventStatus, is_published, is_cancelled, row_allowed,
  Purchase, purchase_is_active,
}
use nim_near.Purchases.Rows.{event_by_id}
use nim_near.Purchases.Create.{active_attendees}
use nim_near.Events.View.{Event, project}

-- model.Patch: `none` is a field whose flag is not set.
pub record Patch : Type 0 where
  pub title : Option Text
  pub description : Option Text
  pub starts_at : Option Time
  pub ends_at : Option Time
  pub image_url : Option Text
  pub capacity : Option (Option ℕ)
  pub place_id : Option (Option ℕ)

abbrev pub set_events : Db → nim_near.Prelude.List EventRow → Db
set_events db rows = record db { events = rows }

-- The primary key, and the constraints of the table.
unfoldable pub create : Bool → EventRow → Db → Result Db
create up e db = do
  require up (plain internal)
  require (not (any (event_by_id e.id) db.events) && row_allowed e) (plain internal)
  ok (set_events db (e ∷ db.events))

-- id = $1 AND organizer_id = $2
abbrev pub organized : ℕ → ℕ → EventRow → Bool
organized event organizer e = e.id == event && exists (λ o. o == organizer) e.organizer_id

-- id = $1 AND organizer_id = $2 AND is_public = TRUE
abbrev pub public_organized : ℕ → ℕ → EventRow → Bool
public_organized event organizer e = organized event organizer e && e.is_public

abbrev pub patched : Patch → Time → EventRow → EventRow
patched patch now e = record e {
  title = coalesce patch.title e.title;
  description = coalesce patch.description e.description;
  starts_at = coalesce patch.starts_at e.starts_at;
  ends_at = coalesce patch.ends_at e.ends_at;
  image_url = coalesce patch.image_url e.image_url;
  capacity = coalesce patch.capacity e.capacity;
  place_id = coalesce patch.place_id e.place_id;
  updated_at = now;
}

-- The capacity that the patch sets, if it sets one that is not null.
abbrev pub new_capacity : Patch → Option ℕ
new_capacity patch = coalesce patch.capacity none

abbrev pub schedules : Patch → Bool
schedules patch = not (is_none patch.starts_at) || not (is_none patch.ends_at)

unfoldable pub check_occupancy : Bool → ℕ → Time → Option ℕ → Db → Result (Unit {0})
check_occupancy up event now none db = ok tt
check_occupancy up event now (some capacity) db = do
  require up (plain internal)
  require (leb (active_attendees event now db) capacity) (plain conflict)

abbrev pub same_place : Option ℕ → Option ℕ → Bool
same_place none o = is_none o
same_place (some p) o = exists (λ q. p == q) o

abbrev pub place_changed : Patch → EventRow → Bool
place_changed patch current = exists (λ p. not (same_place p current.place_id)) patch.place_id

-- event_id = $1 AND status IN (the active ones)
abbrev pub has_activity : ℕ → Purchase → Bool
has_activity event p = p.event_id == event && purchase_is_active p.status

unfoldable pub check_place : Bool → Patch → EventRow → Db → Result (Unit {0})
check_place up patch current db =
    if place_changed patch current
    then (require up (plain internal)
        >> require (not (any (has_activity current.id) db.purchases)) (plain conflict))
    else ok tt

-- The SELECT of the row after it was written. `clock` is NOW().
unfoldable pub read_back : Bool → Bool → ℕ → Time → Db → Result (Event × Db)
read_back up up' event clock db = do
  require up (plain internal)
  row ← or_fail (find (event_by_id event) db.events) (plain internal)
  require up' (plain internal)
  ok (project clock db row, db)

unfoldable pub update_owned_tx : Answers → ℕ → ℕ → Patch → Time → Time → Db → Result (Event × Db)
update_owned_tx up event organizer patch now clock db = do
  require (up 0) (plain internal)
  require (up 1) (plain internal)
  current ← or_fail (find (public_organized event organizer) db.events) (plain not_found)
  require (is_published current.status) (plain conflict)
  require (not (schedules patch && leb current.starts_at now)) (plain conflict)
  require
      (ltb (coalesce patch.starts_at current.starts_at) (coalesce patch.ends_at current.ends_at))
      (plain validation)
  check_occupancy (up 2) event now (new_capacity patch) db
  check_place (up 3) patch current db
  require (up 4 && row_allowed (patched patch now current)) (plain internal)
  read_back (up 5) (up 6) event clock
      (set_events db (update_where (organized event organizer) (patched patch now) db.events))

unfoldable pub update_owned : Answers → ℕ → ℕ → Patch → Time → Time → Db → Result Event × Db
update_owned up event organizer patch now clock db =
    transact db (update_owned_tx up event organizer patch now clock db)

-- The WHERE of the lock of `cancel`: an organizer cancels an event of theirs, the operator any.
abbrev pub cancellable_by : ℕ → Option ℕ → EventRow → Bool
cancellable_by event none e = e.id == event && e.is_public
cancellable_by event (some organizer) e = public_organized event organizer e

abbrev pub cancelled_row : Time → EventRow → EventRow
cancelled_row now e = record e { status = EventStatus.cancelled; updated_at = now }

unfoldable pub cancel_tx : Answers → ℕ → Option ℕ → Time → Time → Db → Result (Event × Db)
cancel_tx up event organizer now clock db = do
  require (up 0) (plain internal)
  require (up 1) (plain internal)
  current ← or_fail (find (cancellable_by event organizer) db.events) (plain not_found)
  if is_cancelled current.status
      then (require (up 2) (plain internal) >> ok (project clock db current, db))
      else (require (up 2) (plain internal)
          >> read_back (up 3) (up 4) event clock
              (set_events db (update_where (event_by_id event) (cancelled_row now) db.events)))

-- cancel; CancelOwned is `some organizer`, and Cancel is `none`.
unfoldable pub cancel : Answers → ℕ → Option ℕ → Time → Time → Db → Result Event × Db
cancel up event organizer now clock db = transact db (cancel_tx up event organizer now clock db)
