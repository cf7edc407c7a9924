-- ===== src/Purchases/Capacity.antt =====
-- Create never sells more seats than an event has.
use nim_near.Prelude.{
  ℕ, suc, ◌≤◌, ◌<◌, update_where, find, ◌≡◌, true, Option, some, List, [], ◌∷◌, ◌++◌, arith, none,
}
use nim_near.Store.{Db, Answers, Time, Duration, EventRow, Purchase}
use nim_near.Store.Yields.{Yields}
use nim_near.Purchases.Rows.{contains, set_purchases, expire, active_purchase, count_distinct}
use nim_near.Purchases.Create.{active_attendees, event_hold_lapsed, on_sale, new_purchase}

contains-insert :
    (x u : ℕ) (xs zs : List ℕ) → contains x (xs ++ zs) ≡ true → contains x (xs ++ u ∷ zs) ≡ true
unfolding contains
contains-insert x u [] zs h = ground arith
contains-insert x u (y ∷ ys) zs h = ground (arith, contains-insert x u ys zs)

-- One more user raises the count by at most one.
pub count_distinct-insert :
    (u : ℕ) (xs zs : List ℕ) → count_distinct (xs ++ u ∷ zs) ≤ suc (count_distinct (xs ++ zs))
unfolding count_distinct
count_distinct-insert u [] zs = ground arith
count_distinct-insert u (x ∷ xs) zs =
    ground (arith, contains-insert x u xs zs, count_distinct-insert u xs zs)

-- The holds of the event that have lapsed are expired.
abbrev pub sweep : ℕ → Time → Db → Db
sweep event_id now db =
    set_purchases db (update_where (event_hold_lapsed event_id now) (expire now) db.purchases)

-- An event without a capacity takes any number.
abbrev pub IsWithin : Option ℕ → ℕ → Type 0
IsWithin none n = Unit
IsWithin (some capacity) n = n ≤ capacity

-- What a successful Create answers: the active purchase that the buyer has after the sweep of
-- lapsed holds, or the new purchase of an event on sale, at its price, with a free seat for it.
pub data Created (id event_id user : ℕ) (now : Time) (hold : Duration) (db : Db)
    : Purchase → Db → Type 0 where
  existing :
      (p : Purchase)
      → active_purchase event_id user (sweep event_id now db).purchases ≡ some p
      → Created id event_id user now hold db p (sweep event_id now db)
  sold :
      (event : EventRow)
      → find (on_sale event_id) db.events ≡ some event
      → now < event.ends_at
      → IsWithin event.capacity (
          active_attendees event.id now (record (sweep event_id now db) {
            purchases = new_purchase id event user now hold ∷ (sweep event_id now db).purchases;
          }))
      → Created id event_id user now hold db
          (new_purchase id event user now hold)
          (record (sweep event_id now db) {
            purchases = new_purchase id event user now hold ∷ (sweep event_id now db).purchases;
          })

module _ (up : Answers) (id event_id user : ℕ) (now : Time) (hold : Duration) (db : Db) where
  abbrev Q : Purchase → Db → Type 0
  Q = Created id event_id user now hold db
