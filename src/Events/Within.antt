-- ===== src/Events/Within.antt =====
-- Events keep within their capacity, whatever the order of the calls.
use nim_near.Prelude.{ℕ, ◌≡◌, refl, Bool, true, List, [], ◌∷◌, arith, All}
use nim_near.Store.{Db, Consumed, Purchase}
use nim_near.Purchases.Submit.{submittable, submit_row}
use nim_near.Purchases.Calls as Purchases
use nim_near.Purchases.Cases.{
  Survives, IgnoresCounters, get_active_for_event-cases, submit_transaction-cases,
  claim_verification-cases, set_verification_state-cases, expire_unresolved-cases,
}
use nim_near.Events.Lifecycle.{organized, patched}
use nim_near.Events.Seats.{Shrinks, seats}
use nim_near.Events.Capped.{IsCapped, purchases-IsCapped, events-IsCapped, new_event-IsCapped}
use nim_near.Events.Sold.{create-IsCapped}
use nim_near.Events.Joined.{rsvp-IsCapped, without-IsCapped}
use nim_near.Events.Cases.{leave-cases, open-cases, update-cases, close-cases}
use nim_near.Events.Calls.{
  Call, on_purchase, joins, leaves, opens, updates, closes, step, run, keeps_capacity,
}

module _ (event capacity price : ℕ) where
  abbrev P : Db → Type 0
  P = IsCapped event capacity price

  counters : IgnoresCounters P
  counters db e n clock h = events-IsCapped event capacity price _ _ (λ r. (refl, refl, refl)) db h

  shrinks : (p : Purchase → Bool) (f : Purchase → Purchase) → Shrinks p f → Survives P p f
  shrinks p f s db h = purchases-IsCapped event capacity price p f s db h

  consumed-IsCapped : (cs : List Consumed) (db : Db) → P db → P (record db { consumed = cs })
  unfolding seats
  consumed-IsCapped cs db h = record {
    keyed = h.keyed;
    row = h.row;
    found = h.found;
    same_capacity = h.same_capacity;
    same_price = h.same_price;
    within = h.within;
    idle = h.idle;
  }

  purchase-IsCapped :
      (c : Purchases.Call) (db : Db)
      → keeps_capacity (on_purchase c) ≡ true
      → P db
      → P (Purchases.step c db)
  unfolding Purchases.step
  purchase-IsCapped (Purchases.creates up i e u now hold) db k h =
      create-IsCapped event capacity price up i e u now hold db h
  purchase-IsCapped (Purchases.reads_active up e u now) db k h =
      get_active_for_event-cases P up e u now db (shrinks _ _ (λ r m. ground (arith, m))) h
  purchase-IsCapped (Purchases.submits up i u x now deadline) db k h =
      submit_transaction-cases P up i u x now deadline db
        (λ cs _ _.
          consumed-IsCapped cs _
            (shrinks (submittable i u) (submit_row x now deadline) (λ r m. ground (arith, m)) db h))
        h
  purchase-IsCapped (Purchases.claims up i u now retry claim force) db k h =
      claim_verification-cases P up i u now retry claim force db
        (shrinks _ _ (λ r m. ground (arith, m))) h
  purchase-IsCapped (Purchases.settles up i u status now clock) db k h =
      set_verification_state-cases P up i u status now clock db counters
        (λ o. shrinks _ _ (λ r m. ground (arith, m, o))) h
  purchase-IsCapped (Purchases.expires up i u now fallback) db k h =
      expire_unresolved-cases P up i u now fallback db (shrinks _ _ (λ r m. ground (arith, m))) h
  purchase-IsCapped (Purchases.recovers up i u now clock) db k h = cc

  step-IsCapped : (c : Call) (db : Db) → keeps_capacity c ≡ true → P db → P (step c db)
  unfolding step
  step-IsCapped (on_purchase c) db k h = purchase-IsCapped c db k h
  step-IsCapped (joins up e user now clock) db k h =
      rsvp-IsCapped event capacity price up e user now clock db counters h
  step-IsCapped (leaves up e user clock) db k h =
      leave-cases P up e user clock clock db counters h
        (without-IsCapped event capacity price e user db h)
  step-IsCapped (opens up e) db k h =
      open-cases P up e db (λ fresh. new_event-IsCapped event capacity price e db fresh h) h
  step-IsCapped (updates up e organizer patch now clock) db k h =
      update-cases P up e organizer patch now clock db
        (events-IsCapped event capacity price (organized e organizer) (patched patch now)
          (λ r. (refl, (ground (arith, k)), refl)))
        h
  step-IsCapped (closes up e organizer now clock) db k h =
      close-cases P up e organizer now clock db
        (events-IsCapped event capacity price _ _ (λ r. (refl, refl, refl))) h

-- An event of the table that keeps within its capacity does so after any calls on purchases, on
-- participation and on events, in any order and with any failures of the database, as long as none
-- is ConfirmExpiredRecovery or an update that sets a capacity: it is still in the table, with its
-- capacity and price, and the users who attend it, bought it, or have an open purchase of it are at
-- most as many as the capacity; and a free event has no open or confirmed purchase.
pub run-IsCapped :
    (event capacity price : ℕ) (cs : List Call) (db : Db)
    → All (λ c. keeps_capacity c ≡ true) cs
    → IsCapped event capacity price db
    → IsCapped event capacity price (run cs db)
unfolding run
run-IsCapped event capacity price [] db k h = h
run-IsCapped event capacity price (c ∷ cs) db k h =
    run-IsCapped event capacity price cs (step c db) k.1
      (step-IsCapped event capacity price c db k.0 h)
