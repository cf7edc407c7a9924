-- ===== src/Events/Calls.antt =====
-- The operations on seats as the calls that handlers and workers make, in any order: those of
-- PurchaseRepo, ParticipationRepo and EventRepo. Each call runs alone, as the row locks of the code
-- make it.
use nim_near.Prelude.{ℕ, Bool, true, false, Option, List, [], ◌∷◌, Result, ok, err, is_none}
use nim_near.Store.{Db, Answers, Time, EventRow}
use nim_near.Purchases.Calls as Purchases
use nim_near.Events.Participation as Participation
use nim_near.Events.Lifecycle.{Patch, create, update_owned, cancel}

pub data Call : Type 0 where
  on_purchase : Purchases.Call → Call
  joins : Answers → ℕ → ℕ → Time → Time → Call
  leaves : Answers → ℕ → ℕ → Time → Call
  opens : Bool → EventRow → Call
  updates : Answers → ℕ → ℕ → Patch → Time → Time → Call
  closes : Answers → ℕ → Option ℕ → Time → Time → Call

-- A statement of its own: an error leaves the tables as they were.
abbrev pub written : Db → Result Db → Db
written db (ok db') = db'
written db (err e) = db

unfoldable pub step : Call → Db → Db
step (on_purchase c) db = Purchases.step c db
step (joins up event user now clock) db = (Participation.rsvp up event user now clock db).1
step (leaves up event user clock) db = (Participation.cancel up event user clock db).1
step (opens up e) db = written db (create up e db)
step (updates up event organizer patch now clock) db =
    (update_owned up event organizer patch now clock db).1
step (closes up event organizer now clock) db = (cancel up event organizer now clock db).1

unfoldable pub run : List Call → Db → Db
run [] db = db
run (c ∷ cs) db = run cs (step c db)

-- ConfirmExpiredRecovery, which does not count the seats, and the updates of a capacity, which
-- count pending purchases by the clock, are not among them.
abbrev pub keeps_capacity : Call → Bool
keeps_capacity (on_purchase (Purchases.recovers up id user now clock)) = false
keeps_capacity (updates up event organizer patch now clock) = is_none patch.capacity
keeps_capacity c = true
