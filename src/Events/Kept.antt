-- ===== src/Events/Kept.antt =====
-- The lifecycle of an event: what the calls may change of it, and what they never change.
use nim_near.Prelude.{
  ◌∙◌, ◌≡◌, Bool, true, false, List, [], ◌∷◌, arith, Survive, Survive-refl, Survive-update,
  Survive-cons, update_where,
}
use nim_near.Store.{Db, EventRow, EventStatus}
use nim_near.Purchases.Calls as Purchases
use nim_near.Purchases.Cases.{
  IgnoresCounters, create-cases, get_active_for_event-cases, submit_transaction-cases,
  claim_verification-cases, set_verification_state-cases, expire_unresolved-cases,
  confirm_expired_recovery-cases,
}
use nim_near.Events.Lifecycle.{set_events}
use nim_near.Events.Cases.{rsvp-cases, leave-cases, open-cases, update-cases, close-cases}
use nim_near.Events.Calls.{Call, on_purchase, joins, leaves, opens, updates, closes, step, run}

-- A cancelled event stays cancelled, and no event returns to be a draft.
abbrev pub may_become : EventStatus → EventStatus → Bool
may_become EventStatus.draft t = true
may_become EventStatus.published EventStatus.draft = false
may_become EventStatus.published t = true
may_become EventStatus.cancelled EventStatus.cancelled = true
may_become EventStatus.cancelled t = false

pub record Moves (e f : EventRow) : Type 0 where
  pub same_id : f.id ≡ e.id
  pub same_price : f.price_lunas ≡ e.price_lunas
  pub same_currency : f.currency ≡ e.currency
  pub same_organizer : f.organizer_id ≡ e.organizer_id
  pub same_calendar : f.calendar_id ≡ e.calendar_id
  pub same_public : f.is_public ≡ e.is_public
  pub same_created : f.created_at ≡ e.created_at
  pub follows : may_become e.status f.status ≡ true

may_become_refl : (s : EventStatus) → may_become s s ≡ true
may_become_refl s = ground arith

may_become_trans :
    (s t u : EventStatus) → may_become s t ≡ true → may_become t u ≡ true → may_become s u ≡ true
may_become_trans s t u h k = ground arith

Moves-refl : (e : EventRow) → Moves e e
Moves-refl e = ground (arith, may_become_refl e.status)

Moves-trans : (e f g : EventRow) → Moves e f → Moves f g → Moves e g
Moves-trans e f g h k = record {
  same_id = k.same_id ∙ h.same_id;
  same_price = k.same_price ∙ h.same_price;
  same_currency = k.same_currency ∙ h.same_currency;
  same_organizer = k.same_organizer ∙ h.same_organizer;
  same_calendar = k.same_calendar ∙ h.same_calendar;
  same_public = k.same_public ∙ h.same_public;
  same_created = k.same_created ∙ h.same_created;
  follows = may_become_trans e.status f.status g.status h.follows k.follows;
}

abbrev Since : List EventRow → Db → Type 0
Since old db = Survive Moves old db.events

module _ (old : List EventRow) where
  abbrev P : Db → Type 0
  P = Since old

  moved :
      (p : EventRow → Bool) (f : EventRow → EventRow)
      → ((e : EventRow) → p e ≡ true → Moves e (f e))
      → (db : Db) → P db
      → P (set_events db (update_where p f db.events))
  moved p f moves db h = Survive-update Moves Moves-refl Moves-trans old db.events p f moves h

  counters : IgnoresCounters P
  counters db e n clock h = moved _ _ (λ r _. ground (arith, may_become_refl r.status)) db h

  purchase-Since : (c : Purchases.Call) (db : Db) → P db → P (Purchases.step c db)
  unfolding Purchases.step
  purchase-Since (Purchases.creates up i e u now hold) db h =
      create-cases P up i e u now hold db (λ _ k. k) (λ _ _ _ k. k) h
  purchase-Since (Purchases.reads_active up e u now) db h =
      get_active_for_event-cases P up e u now db (λ _ k. k) h
  purchase-Since (Purchases.submits up i u x now deadline) db h =
      submit_transaction-cases P up i u x now deadline db (λ _ _ _. h) h
  purchase-Since (Purchases.claims up i u now retry claim force) db h =
      claim_verification-cases P up i u now retry claim force db (λ _ k. k) h
  purchase-Since (Purchases.settles up i u status now clock) db h =
      set_verification_state-cases P up i u status now clock db counters (λ _ _ k. k) h
  purchase-Since (Purchases.expires up i u now fallback) db h =
      expire_unresolved-cases P up i u now fallback db (λ _ k. k) h
  purchase-Since (Purchases.recovers up i u now clock) db h =
      confirm_expired_recovery-cases P up i u now clock db counters (λ _ k. k) (λ _ _ k. k) h

  step-Since : (c : Call) (db : Db) → P db → P (step c db)
  unfolding step
  step-Since (on_purchase c) db h = purchase-Since c db h
  step-Since (joins up e user now clock) db h =
      rsvp-cases P up e user now clock db counters h (λ _ _ _ _ _ k. k)
  step-Since (leaves up e user clock) db h = leave-cases P up e user clock clock db counters h h
  step-Since (opens up e) db h =
      open-cases P up e db (λ _. Survive-cons Moves Moves-refl Moves-trans e old db.events h) h
  step-Since (updates up e organizer patch now clock) db h =
      update-cases P up e organizer patch now clock db
        (moved _ _ (λ r _. ground (arith, may_become_refl r.status))) h
  step-Since (closes up e organizer now clock) db h =
      close-cases P up e organizer now clock db (moved _ _ (λ r _. ground arith)) h

  run-Since : (cs : List Call) (db : Db) → P db → P (run cs db)
  unfolding run
  run-Since [] db h = h
  run-Since (c ∷ cs) db h = run-Since cs (step c db) (step-Since c db h)

-- Whatever calls are made on purchases, participation and events, in any order and with any
-- failures of the database: every event of the table is still there, with its id, price, currency,
-- organizer, calendar, visibility and time of creation, and a cancelled event is still cancelled.
pub events-Survive : (cs : List Call) (db : Db) → Survive Moves db.events (run cs db).events
events-Survive cs db =
    run-Since db.events cs db (Survive-refl Moves Moves-refl Moves-trans db.events)
