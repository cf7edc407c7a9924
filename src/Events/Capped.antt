-- ===== src/Events/Capped.antt =====
-- An event that keeps within its capacity, and the writes that keep it so.
use nim_near.Prelude.{
  ℕ, ◌≤◌, ◌≡◌, sym, ap, subst, ◌∙◌, inl, inr, Bool, false, some, ◌∷◌, arith, if◌then◌else◌,
  Bool-cases, find, any, update_where,
}
use nim_near.Store.{Db, EventRow, Purchase}
use nim_near.Purchases.Rows.{event_by_id, set_purchases}
use nim_near.Events.Lifecycle.{has_activity, set_events}
use nim_near.Events.Seats.{seats, seats_mono, Shrinks, buyers-update, idle-update}
use nim_near.Events.Lookup.{
  IsEventKeyed, update-found, IsEventKeyed-update, fresh-IsEventKeyed, found-any,
}

-- The event has this capacity and this price, its seats are within the capacity, and nobody buys it
-- if it is free.
pub record IsCapped (event capacity price : ℕ) (db : Db) : Type 0 where
  pub keyed : IsEventKeyed db.events
  pub row : EventRow
  pub found : find (event_by_id event) db.events ≡ some row
  pub same_capacity : row.capacity ≡ some capacity
  pub same_price : row.price_lunas ≡ price
  pub within : seats event db ≤ capacity
  pub idle : price ≡ 0 → any (has_activity event) db.purchases ≡ false

module _ (event capacity price : ℕ) where
  abbrev P : Db → Type 0
  P = IsCapped event capacity price

  pub purchases-IsCapped :
      (p : Purchase → Bool) (f : Purchase → Purchase)
      → Shrinks p f
      → (db : Db) → P db
      → P (set_purchases db (update_where p f db.purchases))
  purchases-IsCapped p f shrinks db h = record {
    keyed = h.keyed;
    row = h.row;
    found = h.found;
    same_capacity = h.same_capacity;
    same_price = h.same_price;
    within =
        let m =
          seats_mono event db (set_purchases db (update_where p f db.purchases)) (λ u k. k)
            (buyers-update event p f shrinks db.purchases) in
        omega (arith, m, h.within);
    idle = λ e. idle-update event p f shrinks db.purchases (h.idle e);
  }

  -- A write of the events that keeps ids, capacities and prices.
  pub events-IsCapped :
      (p : EventRow → Bool) (f : EventRow → EventRow)
      → ((e : EventRow)
          → ((f e).id ≡ e.id) × ((f e).capacity ≡ e.capacity) × ((f e).price_lunas ≡ e.price_lunas))
      → (db : Db) → P db
      → P (set_events db (update_where p f db.events))
  unfolding seats
  events-IsCapped p f same db h = record {
    keyed = IsEventKeyed-update p f (λ e. (same e).0) db.events h.keyed;
    row = if p h.row then f h.row else h.row;
    found = update-found p f (λ e. (same e).0) event db.events h.found;
    same_capacity = elim (Bool-cases (p h.row)) [
      | inl e ↦ rw e ((same h.row).1 ∙ h.same_capacity)
      | inr e ↦ rw e h.same_capacity
    ];
    same_price = elim (Bool-cases (p h.row)) [
      | inl e ↦ rw e ((same h.row).2 ∙ h.same_price)
      | inr e ↦ rw e h.same_price
    ];
    within = h.within;
    idle = h.idle;
  }

  -- A new event has an id of its own.
  pub new_event-IsCapped :
      (e : EventRow) (db : Db)
      → any (event_by_id e.id) db.events ≡ false
      → P db
      → P (set_events db (e ∷ db.events))
  unfolding seats find
  new_event-IsCapped e db fresh h = record {
    keyed = fresh-IsEventKeyed e db.events fresh h.keyed;
    row = h.row;
    found = ground (arith, fresh, found-any event db.events {a = h.row}, h.found);
    same_capacity = h.same_capacity;
    same_price = h.same_price;
    within = h.within;
    idle = h.idle;
  }

  -- New tables of participants and purchases under the same events.
  pub seated-IsCapped :
      (db db' : Db)
      → db'.events ≡ db.events
      → db'.purchases ≡ db.purchases
      → seats event db' ≤ capacity
      → P db
      → P db'
  seated-IsCapped db db' e k m h = record {
    keyed = subst IsEventKeyed (sym e) h.keyed;
    row = h.row;
    found = ap (find (event_by_id event)) e ∙ h.found;
    same_capacity = h.same_capacity;
    same_price = h.same_price;
    within = m;
    idle = λ z. ap (any (has_activity event)) k ∙ h.idle z;
  }
