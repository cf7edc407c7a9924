-- ===== src/Events/Updated.antt =====
-- What an organizer may change of an event.
use nim_near.Prelude.{
  ℕ, ◌≤◌, ◌<◌, ◌≡◌, ◌≢◌, refl, sym, ◌∙◌, ◌↔◌, inl, inr, Bool, true, false, Option, none, some, List,
  [], ◌∷◌, arith, ok, find, any, require-eq-ok, or_fail-eq-ok, coalesce, ◌>>=◌, Bool-cases,
  update_where,
}
use nim_near.Store.{Db, Answers, Time, EventRow, is_published}
use nim_near.Store.Yields.{Yields, Yields-bind, transact-Yields}
use nim_near.Purchases.Create.{active_attendees}
use nim_near.Events.View.{Event}
use nim_near.Events.Lifecycle.{
  Patch, organized, public_organized, patched, new_capacity, schedules, check_occupancy,
  place_changed, has_activity, check_place, read_back, update_owned, update_owned_tx,
}

-- The row of an event after the update: a column has the value of the patch, where the patch has
-- one, and else the old one, but for updated_at.
pub record IsPatched (patch : Patch) (now : Time) (old new : EventRow) : Type 0 where
  pub same_id : new.id ≡ old.id
  pub title : new.title ≡ coalesce patch.title old.title
  pub description : new.description ≡ coalesce patch.description old.description
  pub starts_at : new.starts_at ≡ coalesce patch.starts_at old.starts_at
  pub ends_at : new.ends_at ≡ coalesce patch.ends_at old.ends_at
  pub image_url : new.image_url ≡ coalesce patch.image_url old.image_url
  pub capacity : new.capacity ≡ coalesce patch.capacity old.capacity
  pub place_id : new.place_id ≡ coalesce patch.place_id old.place_id
  pub same_status : new.status ≡ old.status
  pub same_price : new.price_lunas ≡ old.price_lunas
  pub same_currency : new.currency ≡ old.currency
  pub same_attendees : new.attendee_count ≡ old.attendee_count
  pub same_calendar : new.calendar_id ≡ old.calendar_id
  pub same_address : new.address ≡ old.address
  pub same_city : new.city ≡ old.city
  pub same_organizer : new.organizer_id ≡ old.organizer_id
  pub same_public : new.is_public ≡ old.is_public
  pub same_created : new.created_at ≡ old.created_at
  pub updated_at : new.updated_at ≡ now

-- A row of the event and the organizer is patched, and every other row is the same.
pub record IsRewritten (event organizer : ℕ) (patch : Patch) (now : Time) (old new : EventRow)
    : Type 0 where
  pub patches : old.id ≡ event → old.organizer_id ≡ some organizer → IsPatched patch now old new
  pub keeps_others : old.id ≢ event → new ≡ old
  pub keeps_foreign : old.organizer_id ≢ some organizer → new ≡ old

-- Two tables, row by row.
abbrev pub AreRewritten : ℕ → ℕ → Patch → Time → List EventRow → List EventRow → Type 0
AreRewritten event organizer patch now [] [] = Unit
AreRewritten event organizer patch now [] (f ∷ fs) = ⊥
AreRewritten event organizer patch now (e ∷ es) [] = ⊥
AreRewritten event organizer patch now (e ∷ es) (f ∷ fs) =
    IsRewritten event organizer patch now e f × AreRewritten event organizer patch now es fs

-- What a successful update has found and left.
pub record IsUpdated (event organizer : ℕ) (patch : Patch) (now : Time) (db db' : Db) : Type 0 where
  pub current : EventRow
  pub found : find (public_organized event organizer) db.events ≡ some current
  pub published : is_published current.status ≡ true
  pub upcoming : schedules patch ≡ true → now < current.starts_at
  pub lasts : coalesce patch.starts_at current.starts_at < coalesce patch.ends_at current.ends_at
  pub fits : (c : ℕ) → new_capacity patch ≡ some c → active_attendees event now db ≤ c
  pub settled :
      place_changed patch current ≡ true → any (has_activity current.id) db.purchases ≡ false
  pub rewritten : AreRewritten event organizer patch now db.events db'.events
  pub same_purchases : db'.purchases ≡ db.purchases
  pub same_participants : db'.participants ≡ db.participants
  pub same_requests : db'.requests ≡ db.requests
  pub same_consumed : db'.consumed ≡ db.consumed

patched-IsPatched :
    (patch : Patch) (now : Time) (e : EventRow) → IsPatched patch now e (patched patch now e)
patched-IsPatched patch now e = record {
  same_id = refl;
  title = refl;
  description = refl;
  starts_at = refl;
  ends_at = refl;
  image_url = refl;
  capacity = refl;
  place_id = refl;
  same_status = refl;
  same_price = refl;
  same_currency = refl;
  same_attendees = refl;
  same_calendar = refl;
  same_address = refl;
  same_city = refl;
  same_organizer = refl;
  same_public = refl;
  same_created = refl;
  updated_at = refl;
}

organized_iff :
    (event organizer : ℕ) (e : EventRow)
    → (organized event organizer e ≡ true) ↔ ((e.id ≡ event) × (e.organizer_id ≡ some organizer))
organized_iff event organizer e = ground arith

module _ (event organizer : ℕ) (patch : Patch) (now : Time) where
  kept-IsRewritten :
      (e : EventRow)
      → organized event organizer e ≡ false
      → IsRewritten event organizer patch now e e
  kept-IsRewritten e h = record {
    patches = λ i o. absurd_row (sym h ∙ (organized_iff event organizer e).1 (i, o));
    keeps_others = λ _. refl;
    keeps_foreign = λ _. refl;
  }
    where
      absurd_row : {A : Type 0} → false ≡ true → A
      absurd_row k = cc

  patched-IsRewritten :
      (e : EventRow)
      → organized event organizer e ≡ true
      → IsRewritten event organizer patch now e (patched patch now e)
  patched-IsRewritten e h =
      let (i, o) = (organized_iff event organizer e).0 h in
      record {
        patches = λ _ _. patched-IsPatched patch now e;
        keeps_others = λ other. elim (other i) [ ];
        keeps_foreign = λ foreign. elim (foreign o) [ ];
      }

  update-AreRewritten :
      (es : List EventRow)
      → AreRewritten event organizer patch now es
          (update_where (organized event organizer) (patched patch now) es)
  unfolding update_where
  update-AreRewritten [] = tt
  update-AreRewritten (e ∷ es) = elim (Bool-cases (organized event organizer e)) [
    | inl h ↦ rw h (patched-IsRewritten e h, update-AreRewritten es)
    | inr h ↦ rw h (kept-IsRewritten e h, update-AreRewritten es)
  ]

checked_occupancy :
    (up : Bool) (event : ℕ) (now : Time) (o : Option ℕ) (db : Db) {u : Unit {0}}
    → check_occupancy up event now o db ≡ ok u
    → (c : ℕ) → o ≡ some c
    → active_attendees event now db ≤ c
unfolding check_occupancy ◌>>=◌
checked_occupancy up event now none db h c e = cc
checked_occupancy up event now (some d) db h c e = ground (arith, h, e)

checked_place :
    (up : Bool) (patch : Patch) (current : EventRow) (db : Db) {u : Unit {0}}
    → check_place up patch current db ≡ ok u
    → place_changed patch current ≡ true
    → any (has_activity current.id) db.purchases ≡ false
unfolding check_place ◌>>=◌
checked_place up patch current db h e =
    elim (Bool-cases (any (has_activity current.id) db.purchases)) [
      | inl a ↦ ground (arith, h, e, a)
      | inr a ↦ a
    ]

read_back-Yields :
    (Q : Event → Db → Type 0) (b b' : Bool) (event : ℕ) (clock : Time) (db : Db)
    → ((e : Event) → Q e db)
    → Yields Q (read_back b b' event clock db)
unfolding read_back
read_back-Yields Q b b' event clock db q =
    Yields-bind Q _ _
      λ _ _. Yields-bind Q _ _ λ _ _. Yields-bind Q _ _ λ _ _. Yields.done _ db (q _)

-- When UpdateOwned succeeds, the event was public, published and the organizer's; its times have
-- changed only if it had not started; it ends after it starts; a new capacity is at least the
-- number of users who hold a seat; its place has changed only if nobody has an open or confirmed
-- purchase. After it, the rows with the id of the event and of the organizer have the values of the
-- patch, the old values in all other columns and the time of the update; every other row of the
-- events is as before, and so are purchases, participants, requests and consumed transactions.
pub update_owned-IsUpdated :
    (up : Answers) (event organizer : ℕ) (patch : Patch) (now clock : Time) (db db' : Db)
    (e : Event)
    → update_owned up event organizer patch now clock db ≡ (ok e, db')
    → IsUpdated event organizer patch now db db'
unfolding update_owned update_owned_tx
update_owned-IsUpdated up event organizer patch now clock db db' e h =
    let Q : Event → Db → Type 0 = λ _ last. IsUpdated event organizer patch now db last in
    transact-Yields Q db db' (update_owned_tx up event organizer patch now clock db) e
      (Yields-bind Q _ _ λ _ _. Yields-bind Q _ _ λ _ _. Yields-bind Q _ _ λ current found.
        Yields-bind Q _ _ λ _ published. Yields-bind Q _ _ λ _ upcoming.
          Yields-bind Q _ _ λ _ lasts. Yields-bind Q _ _ λ _ fits. Yields-bind Q _ _ λ _ settled.
            Yields-bind Q _ _ λ _ _. read_back-Yields Q (up 5) (up 6) event clock _ (λ _. record {
              current = current;
              found = or_fail-eq-ok _ _ found;
              published = require-eq-ok _ _ published;
              upcoming = λ s. ground (arith, require-eq-ok _ _ upcoming, s);
              lasts = ground (arith, require-eq-ok _ _ lasts);
              fits = checked_occupancy (up 2) event now (new_capacity patch) db fits;
              settled = checked_place (up 3) patch current db settled;
              rewritten = update-AreRewritten event organizer patch now db.events;
              same_purchases = refl;
              same_participants = refl;
              same_requests = refl;
              same_consumed = refl;
            }))
      h
