-- ===== src/Events/Joined.antt =====
-- RSVP gives a seat within the capacity, and Cancel takes none.
use nim_near.Prelude.{
  ℕ, suc, ◌≤◌, ◌<◌, ◌≡◌, refl, ap, subst, ◌∙◌, inl, inr, true, false, not, some, List, [], ◌∷◌,
  ◌++◌, ◌==◌, arith, Bool-cases, find, any, select,
}
use nim_near.Store.{Db, Answers, Time, Participant, EventRow}
use nim_near.Purchases.Rows.{contains, count_distinct, participant_ids, buyer_ids}
use nim_near.Purchases.Create.{active_attendees, holds_seat, holds_pending, on_sale}
use nim_near.Events.View.{is_full}
use nim_near.Events.Lifecycle.{has_activity}
use nim_near.Events.Participation.{is_join, set_participants, without, rsvp}
use nim_near.Events.Distinct.{IsWithin, count_distinct_mono, contains-append}
use nim_near.Events.Seats.{seats, seats_mono, idle-buyer_ids}
use nim_near.Purchases.Cases.{IgnoresCounters}
use nim_near.Events.Cases.{rsvp-cases}
use nim_near.Events.Capped.{IsCapped, seated-IsCapped}
use nim_near.Events.Sold.{on_sale-row}

without-ids :
    (event e user : ℕ) (ps : List Participant)
    → IsWithin
        (participant_ids event (select (λ p. not (is_join e user p)) ps))
        (participant_ids event ps)
unfolding participant_ids select contains
without-ids event e user [] u h = h
without-ids event e user (p ∷ ps) u h = ground (arith, h, without-ids event e user ps u)

module _ (event capacity price : ℕ) where
  abbrev P : Db → Type 0
  P = IsCapped event capacity price

  -- A free event is taken by participants only.
  idle_seats :
      (clock : Time) (db : Db)
      → any (has_activity event) db.purchases ≡ false
      → seats event db ≤ active_attendees event clock db
  unfolding seats active_attendees contains
  idle_seats clock db h = count_distinct_mono _ _ (λ u m. ground (
    arith,
    idle-buyer_ids event db.purchases h,
    m,
    contains-append u (participant_ids event db.participants)
        (buyer_ids (has_activity event) db.purchases),
    contains-append u
        (participant_ids event db.participants ++ buyer_ids (holds_seat event) db.purchases)
        (buyer_ids (holds_pending event clock) db.purchases),
    contains-append u (participant_ids event db.participants)
        (buyer_ids (holds_seat event) db.purchases),
  ))

  join_seats :
      (e user : ℕ) (db : Db)
      → seats event
          (set_participants db (record { event_id = e; user_id = user } ∷ db.participants))
        ≤ suc (seats event db)
  unfolding seats participant_ids count_distinct
  join_seats e user db = ground arith

  other_seats :
      (e user : ℕ) (db : Db)
      → (e == event) ≡ false
      → seats event
          (set_participants db (record { event_id = e; user_id = user } ∷ db.participants))
        ≡ seats event db
  unfolding seats participant_ids
  other_seats e user db d = ground (arith, d)

  -- The event that RSVP has locked: if it is this one, it is free and has the capacity.
  abbrev IsLocked : ℕ → EventRow → Type 0
  IsLocked e row = (e == event) ≡ true → (row.capacity ≡ some capacity) × (price ≡ 0)

  locked :
      (e : ℕ) (row : EventRow) (db : Db)
      → P db
      → find (on_sale e) db.events ≡ some row
      → (row.price_lunas == 0) ≡ true
      → IsLocked e row
  locked e row db h f free s =
      let is_row : row ≡ h.row =
        on_sale-row event capacity price db h row
          (subst (λ i. find (on_sale i) db.events ≡ some row) (ground (arith, s)) f) in
      (
        ap (λ (x : EventRow). x.capacity) is_row ∙ h.same_capacity,
        ground (arith, ap (λ (x : EventRow). x.price_lunas) is_row, h.same_price, free),
      )

  own_room :
      (e : ℕ) (row : EventRow) (clock : Time) (db : Db)
      → row.capacity ≡ some capacity
      → (e == event) ≡ true
      → is_full row.capacity (active_attendees e clock db) ≡ false
      → active_attendees event clock db < capacity
  own_room e row clock db c s room = ground (
    arith,
    c,
    room,
    ap (λ (i : ℕ). active_attendees i clock db) {x = e} {y = event} (ground (arith, s)),
  )

  joined-IsCapped :
      (e : ℕ) (row : EventRow) (user : ℕ) (clock : Time) (db : Db)
      → IsLocked e row
      → is_full row.capacity (active_attendees e clock db) ≡ false
      → P db
      → P (set_participants db (record { event_id = e; user_id = user } ∷ db.participants))
  joined-IsCapped e row user clock db lock room h =
      seated-IsCapped event capacity price db _ refl refl
        (elim (Bool-cases (e == event)) [
          | inr d ↦ omega (arith, other_seats e user db d, h.within)
          | inl s ↦ omega (
            arith,
            join_seats e user db,
            idle_seats clock db (h.idle (lock s).1),
            own_room e row clock db (lock s).0 s room,
          )
        ])
        h

  pub without-IsCapped : (e user : ℕ) (db : Db) → P db → P (without e user db)
  without-IsCapped e user db h =
      let m =
        seats_mono event db (without e user db) (without-ids event e user db.participants)
          (λ u k. k) in
      seated-IsCapped event capacity price db (without e user db) refl refl
        (omega (arith, m, h.within)) h

  pub rsvp-IsCapped :
      (up : Answers) (e user : ℕ) (now clock : Time) (db : Db)
      → IgnoresCounters P
      → P db
      → P (rsvp up e user now clock db).1
  rsvp-IsCapped up e user now clock db counters h =
      rsvp-cases P up e user now clock db counters h (λ row found free db' room k.
        joined-IsCapped e row user clock db' (locked e row db h found free) room k)
