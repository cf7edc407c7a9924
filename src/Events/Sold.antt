-- ===== src/Events/Sold.antt =====
-- Create of PurchaseRepo sells within the capacity.
use nim_near.Prelude.{
  ℕ, suc, ◌≤◌, ◌<◌, ◌≡◌, ◌≢◌, sym, ap, subst, ◌∙◌, inl, inr, Bool, true, false, ◌||◌, Option, none,
  some, List, [], ◌∷◌, ◌++◌, ◌==◌, arith, Bool-cases, find, find-holds, any, update_where, ok,
  ◌>>=◌, require-eq-ok, or_fail-eq-ok,
}
use nim_near.Store.{Db, Answers, Time, Duration, EventRow, Purchase}
use nim_near.Store.After.{After, After-bind, transact-After}
use nim_near.Purchases.Rows.{contains, participant_ids, buyer_ids, expire, set_purchases}
use nim_near.Purchases.Capacity.{count_distinct-insert, sweep}
use nim_near.Purchases.Create.{
  active_attendees, check_capacity, event_hold_lapsed, holds_seat, holds_pending, on_sale,
  new_purchase, insert_purchase, existing_or_new, create_tx, create,
}
use nim_near.Events.Lifecycle.{has_activity}
use nim_near.Events.Distinct.{IsWithin, count_distinct_mono, contains-append}
use nim_near.Events.Seats.{seats}
use nim_near.Events.Lookup.{found_once}
use nim_near.Events.Capped.{IsCapped, purchases-IsCapped}

-- Once the lapsed holds have expired, whoever is active holds a seat.
swept_holders :
    (event : ℕ) (now : Time) (xs : List Purchase) (u : ℕ)
    → contains u (
        buyer_ids (has_activity event) (update_where (event_hold_lapsed event now) (expire now) xs))
      ≡ true
    → (contains u (
          buyer_ids (holds_seat event) (update_where (event_hold_lapsed event now) (expire now) xs))
        || contains u (
            buyer_ids
              (holds_pending event now)
              (update_where (event_hold_lapsed event now) (expire now) xs)))
      ≡ true
unfolding buyer_ids update_where contains
swept_holders event now [] u h = cc
swept_holders event now (x ∷ xs) u h = ground (arith, h, swept_holders event now xs u)

IsWithin-three :
    (ps xs ys zs : List ℕ)
    → ((u : ℕ) → contains u xs ≡ true → (contains u ys || contains u zs) ≡ true)
    → IsWithin (ps ++ xs) (ps ++ ys ++ zs)
IsWithin-three ps xs ys zs h u m = ground (
  arith,
  contains-append u ps xs,
  contains-append u (ps ++ ys) zs,
  contains-append u ps ys,
  h u,
  m,
)

pub seats-active_attendees :
    (event : ℕ) (now : Time) (db : Db)
    → seats event (sweep event now db) ≤ active_attendees event now (sweep event now db)
unfolding seats active_attendees
seats-active_attendees event now db = count_distinct_mono _ _ (
    IsWithin-three (participant_ids event db.participants) _ _ _
      (swept_holders event now db.purchases))

module _ (event capacity price : ℕ) where
  abbrev P : Db → Type 0
  P = IsCapped event capacity price

  -- The event that is on sale under the id is the event itself.
  pub on_sale-row :
      (db : Db) (h : P db) (e : EventRow) → find (on_sale event) db.events ≡ some e → e ≡ h.row
  on_sale-row db h e f =
      found_once event (on_sale event) db.events h.row e h.keyed h.found f
        (ground (arith, find-holds (on_sale event) db.events {a = e} f))

  -- A purchase of another event takes no seat of this one.
  other_sale :
      (id : ℕ) (e : EventRow) (user : ℕ) (now : Time) (hold : Duration) (db : Db)
      → (e.id == event) ≡ false
      → P db
      → P (set_purchases db (new_purchase id e user now hold ∷ db.purchases))
  unfolding seats buyer_ids any
  other_sale id e user now hold db d h = record {
    keyed = h.keyed;
    row = h.row;
    found = h.found;
    same_capacity = h.same_capacity;
    same_price = h.same_price;
    within = ground (arith, d, h.within);
    idle = λ z. ground (arith, d, h.idle z);
  }

  new_seat :
      (id : ℕ) (e : EventRow) (user : ℕ) (now : Time) (hold : Duration) (db : Db)
      → seats event (set_purchases db (new_purchase id e user now hold ∷ db.purchases))
        ≤ suc (seats event db)
  unfolding seats buyer_ids
  new_seat id e user now hold db = ground (
    arith,
    count_distinct-insert user (participant_ids event db.participants)
        (buyer_ids (has_activity event) db.purchases),
  )

  checked_room :
      (b : Bool) (event : ℕ) (now : Time) (c : ℕ) (db : Db) {u : Unit {0}}
      → check_capacity b event now (some c) db ≡ ok u
      → active_attendees event now db < c
  unfolding check_capacity ◌>>=◌
  checked_room b event now c db h = ground arith

  own_sale :
      (b : Bool) (id : ℕ) (e : EventRow) (user : ℕ) (now : Time) (hold : Duration) (db : Db)
      {u : Unit {0}}
      → e.capacity ≡ some capacity
      → price ≢ 0
      → check_capacity b event now e.capacity (sweep event now db) ≡ ok u
      → P (sweep event now db)
      → P (
          set_purchases
            (sweep event now db)
            (new_purchase id e user now hold ∷ (sweep event now db).purchases))
  own_sale b id e user now hold db c paid room h = record {
    keyed = h.keyed;
    row = h.row;
    found = h.found;
    same_capacity = h.same_capacity;
    same_price = h.same_price;
    within = omega (
      arith,
      new_seat id e user now hold (sweep event now db),
      seats-active_attendees event now db,
      checked_room b event now capacity (sweep event now db)
          (subst (λ o. check_capacity b event now o (sweep event now db) ≡ ok _) c room),
    );
    idle = λ z. elim (paid z) [ ];
  }

  sale :
      (b : Bool) (id event_id : ℕ) (e : EventRow) (user : ℕ) (now : Time) (hold : Duration)
      (db : Db) (u : Unit {0})
      → P db
      → P (sweep event_id now db)
      → find (on_sale event_id) db.events ≡ some e
      → (e.price_lunas == 0) ≡ false
      → check_capacity b e.id now e.capacity (sweep event_id now db) ≡ ok u
      → P (
          set_purchases
            (sweep event_id now db)
            (new_purchase id e user now hold ∷ (sweep event_id now db).purchases))
  sale b id event_id e user now hold db u h swept f paid room = elim (Bool-cases (e.id == event)) [
    | inr d ↦ other_sale id e user now hold (sweep event_id now db) d swept
    | inl s ↦
        let held : (e.id == event_id) ≡ true =
          ground (arith, find-holds (on_sale event_id) db.events {a = e} f) in
        let same : event_id ≡ event = ground (arith, held, s) in
        subst Sells (sym same) own_event f
          (subst (λ i. check_capacity b i now e.capacity (sweep event_id now db) ≡ ok u)
            (ground (arith, held)) room)
          swept
  ]
    where
      Sells : ℕ → Type 0
      Sells i =
          find (on_sale i) db.events ≡ some e
          → check_capacity b i now e.capacity (sweep i now db) ≡ ok u
          → P (sweep i now db)
          → P (
              set_purchases (sweep i now db)
                (new_purchase id e user now hold ∷ (sweep i now db).purchases))

      own_event : Sells event
      own_event g r k =
          let is_row : e ≡ h.row = on_sale-row db h e g in
          own_sale b id e user now hold db
            (ap (λ (x : EventRow). x.capacity) is_row ∙ h.same_capacity)
            (λ z.
              ground (arith, ap (λ (x : EventRow). x.price_lunas) is_row, h.same_price, z, paid))
            r k

  module _ (up : Answers) (id event_id user : ℕ) (now : Time) (hold : Duration) (db : Db)
      (h : P db) where
    swept : P (sweep event_id now db)
    swept =
        purchases-IsCapped event capacity price (event_hold_lapsed event_id now) (expire now)
          (λ r k. ground (arith, k)) db h

    open_sale :
        (e : EventRow)
        → find (on_sale event_id) db.events ≡ some e
        → (e.price_lunas == 0) ≡ false
        → (o : Option Purchase)
        → After P (existing_or_new up id e user now hold (sweep event_id now db) o)
    unfolding existing_or_new insert_purchase
    open_sale e f paid (some p) = After-bind P _ _ λ _ _. After.done p _ swept
    open_sale e f paid none = After-bind P _ _ λ u room. After-bind P _ _ λ _ _.
        After-bind P _ _ λ _ _.
          After-bind P _ _
            λ _ _. After.done _ _ (sale (up 5) id event_id e user now hold db u h swept f paid room)

    pub create-IsCapped : P (create up id event_id user now hold db).1
    unfolding create create_tx
    create-IsCapped = transact-After P db (create_tx up id event_id user now hold db) h (
        After-bind P _ _ λ _ _. After-bind P _ _ λ _ _. After-bind P _ _ λ e found.
          After-bind P _ _ λ _ _. After-bind P _ _ λ _ paid. After-bind P _ _ λ _ _.
            After-bind P _ _ λ _ _.
              open_sale e (or_fail-eq-ok _ _ found) (ground (arith, require-eq-ok _ _ paid)) _)
