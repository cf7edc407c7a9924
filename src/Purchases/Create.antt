-- ===== src/Purchases/Create.antt =====
-- purchase_repository.go: Create.
use nim_near.Prelude.{
  ℕ, ◌+◌, Bool, not, ◌&&◌, ◌||◌, Option, none, some, ◌∷◌, ◌++◌, ltb, leb, ◌==◌, is_none, exists,
  Result, ok, plain, coded, internal, not_found, validation, event_past, past_event, sold_out,
  paid_purchase_required, require, or_fail, ◌>>=◌, ◌>>◌, find, any, update_where,
}
use nim_near.Store.{
  Db, Answers, transact, Time, Duration, EventRow, Purchase, PurchaseStatus, purchase_is_pending,
  purchase_in_flight, purchase_status_eq, is_published,
}
use nim_near.Purchases.Rows.{
  set_purchases, active_for, active_purchase, hold_lapsed, expire, count_distinct, participant_ids,
  buyer_ids,
}

-- id = $1 AND is_public = TRUE AND status = 'published'
abbrev pub on_sale : ℕ → EventRow → Bool
on_sale event e = e.id == event && e.is_public && is_published e.status

-- event_id = $1 AND status = 'pending' AND the hold has lapsed
abbrev pub event_hold_lapsed : ℕ → Time → Purchase → Bool
event_hold_lapsed event now p =
    p.event_id == event && purchase_is_pending p.status && hold_lapsed now p

-- status IN ('confirmed', 'submitted', 'verifying')
abbrev pub holds_seat : ℕ → Purchase → Bool
holds_seat event p =
    p.event_id == event
    && (purchase_in_flight p.status || purchase_status_eq p.status PurchaseStatus.confirmed)

-- status = 'pending' AND (capacity_hold_expires_at IS NULL OR capacity_hold_expires_at > now)
abbrev pub holds_pending : ℕ → Time → Purchase → Bool
holds_pending event now p =
    p.event_id == event
    && purchase_is_pending p.status
    && (is_none p.capacity_hold_expires_at || exists (λ t. ltb now t) p.capacity_hold_expires_at)

-- The count of active_attendees.
unfoldable pub active_attendees : ℕ → Time → Db → ℕ
active_attendees event now db = count_distinct (
    participant_ids event db.participants
    ++ buyer_ids (holds_seat event) db.purchases
    ++ buyer_ids (holds_pending event now) db.purchases)

-- `if capacity != nil { … }`
unfoldable pub check_capacity : Bool → ℕ → Time → Option ℕ → Db → Result (Unit {0})
check_capacity up event now none db = ok tt
check_capacity up event now (some capacity) db = do
  require up (plain internal)
  require (ltb (active_attendees event now db) capacity) (plain sold_out)

abbrev pub hold_until : Option ℕ → Time → Duration → Option Time
hold_until none now hold = none
hold_until (some capacity) now hold = some (now + hold)

-- The row of the INSERT. Its id is gen_random_uuid().
abbrev pub new_purchase : ℕ → EventRow → ℕ → Time → Duration → Purchase
new_purchase id event user now hold = record {
  id = id;
  event_id = event.id;
  user_id = user;
  amount_lunas = event.price_lunas;
  status = PurchaseStatus.pending;
  capacity_hold_expires_at = hold_until event.capacity now hold;
  reconciliation_deadline_at = none;
  last_verification_attempt_at = none;
  verification_claimed_until = none;
  transaction_hash = none;
  created_at = now;
  updated_at = now;
  confirmed_at = none;
}

-- The primary key, and the unique index on active purchases of one event and user. A violation is
-- an error of the INSERT as any other.
unfoldable pub insert_purchase :
    Answers → ℕ → EventRow → ℕ → Time → Duration → Db → Result (Purchase × Db)
insert_purchase up id event user now hold db = do
  check_capacity (up 5) event.id now event.capacity db
  require (up 6) (plain internal)
  require (not (any (λ p. p.id == id || active_for event.id user p) db.purchases)) (plain internal)
  require (up 7) (plain internal)
  ok (
    new_purchase id event user now hold,
    set_purchases db (new_purchase id event user now hold ∷ db.purchases),
  )

-- The active purchase of the user, if there is one, or a new one.
unfoldable pub existing_or_new :
    Answers → ℕ → EventRow → ℕ → Time → Duration → Db → Option Purchase → Result (Purchase × Db)
existing_or_new up id event user now hold db (some existing) =
    require (up 4) (plain internal) >> ok (existing, db)
existing_or_new up id event user now hold db none = insert_purchase up id event user now hold db

unfoldable pub create_tx : Answers → ℕ → ℕ → ℕ → Time → Duration → Db → Result (Purchase × Db)
create_tx up id event_id user now hold db = do
  require (up 0) (plain internal)
  require (up 1) (plain internal)
  event ← or_fail (find (on_sale event_id) db.events) (plain not_found)
  require (not (leb event.ends_at now)) (coded event_past past_event)
  require (not (event.price_lunas == 0)) (coded validation paid_purchase_required)
  require (up 2) (plain internal)
  let swept =
      set_purchases db (update_where (event_hold_lapsed event_id now) (expire now) db.purchases)
  require (up 3) (plain internal)
  existing_or_new up id event user now hold swept (active_purchase event_id user swept.purchases)

unfoldable pub create : Answers → ℕ → ℕ → ℕ → Time → Duration → Db → Result Purchase × Db
create up id event_id user now hold db = transact db (create_tx up id event_id user now hold db)
