-- ===== src/Purchases/Lifecycle.antt =====
-- The lifecycle of a purchase: which states may follow which, and what never changes.
use nim_near.Prelude.{
  ℕ, ◌∙◌, ap, ◌≡◌, refl, Bool, true, false, List, [], ◌∷◌, arith, Text, Survive, Survive-refl,
  Survive-update, Survive-cons,
}
use nim_near.Store.{Db, Time, Duration, Purchase, PurchaseStatus, purchase_is_pending}
use nim_near.Purchases.Rows.{own_hold_lapsed, expire}
use nim_near.Purchases.Create.{event_hold_lapsed, new_purchase}
use nim_near.Purchases.Submit.{submittable, submit_row}
use nim_near.Purchases.Settle.{
  claimable, claim_row, is_stale, expire_unresolved_row, in_flight_owned, settle_row,
  is_outcome_status,
}
use nim_near.Purchases.Recover.{replacement, release_row, recovering, recover_row}
use nim_near.Purchases.Calls.{
  Call, creates, reads_active, submits, claims, settles, expires, recovers, step, run,
}
use nim_near.Purchases.Cases.{
  Survives, create-cases, get_active_for_event-cases, submit_transaction-cases,
  claim_verification-cases, set_verification_state-cases, expire_unresolved-cases,
  confirm_expired_recovery-cases,
}

-- confirmed, failed and cancelled are final; expired may only become confirmed.
abbrev pub is_final : PurchaseStatus → Bool
is_final PurchaseStatus.confirmed = true
is_final PurchaseStatus.failed = true
is_final PurchaseStatus.cancelled = true
is_final _ = false

abbrev pub may_become : PurchaseStatus → PurchaseStatus → Bool
may_become PurchaseStatus.pending t = true
may_become PurchaseStatus.submitted PurchaseStatus.pending = false
may_become PurchaseStatus.submitted PurchaseStatus.cancelled = false
may_become PurchaseStatus.submitted t = true
may_become PurchaseStatus.verifying PurchaseStatus.pending = false
may_become PurchaseStatus.verifying PurchaseStatus.submitted = false
may_become PurchaseStatus.verifying PurchaseStatus.cancelled = false
may_become PurchaseStatus.verifying t = true
may_become PurchaseStatus.expired PurchaseStatus.expired = true
may_become PurchaseStatus.expired PurchaseStatus.confirmed = true
may_become PurchaseStatus.confirmed PurchaseStatus.confirmed = true
may_become PurchaseStatus.failed PurchaseStatus.failed = true
may_become PurchaseStatus.cancelled PurchaseStatus.cancelled = true
may_become s t = false

-- One row, before and after.
pub record Moves (p q : Purchase) : Type 0 where
  pub same_id : q.id ≡ p.id
  pub same_event : q.event_id ≡ p.event_id
  pub same_user : q.user_id ≡ p.user_id
  pub same_amount : q.amount_lunas ≡ p.amount_lunas
  pub same_created : q.created_at ≡ p.created_at
  pub follows : may_become p.status q.status ≡ true
  pub keeps_hash : purchase_is_pending p.status ≡ false → q.transaction_hash ≡ p.transaction_hash
  pub keeps_final : is_final p.status ≡ true → q ≡ p

may_become_refl : (s : PurchaseStatus) → may_become s s ≡ true
may_become_refl PurchaseStatus.pending = refl
may_become_refl _ = refl

may_become_trans :
    (s t u : PurchaseStatus) → may_become s t ≡ true → may_become t u ≡ true → may_become s u ≡ true
may_become_trans s t u h k = ground arith

not_pending :
    (s t : PurchaseStatus)
    → may_become s t ≡ true
    → purchase_is_pending s ≡ false
    → purchase_is_pending t ≡ false
not_pending s t h k = ground arith

Moves-refl : (p : Purchase) → Moves p p
Moves-refl p = ground (arith, may_become_refl p.status)

Moves-trans : (p q r : Purchase) → Moves p q → Moves q r → Moves p r
Moves-trans p q r h k = record {
  same_id = k.same_id ∙ h.same_id;
  same_event = k.same_event ∙ h.same_event;
  same_user = k.same_user ∙ h.same_user;
  same_amount = k.same_amount ∙ h.same_amount;
  same_created = k.same_created ∙ h.same_created;
  follows = may_become_trans p.status q.status r.status h.follows k.follows;
  keeps_hash = λ e. k.keeps_hash (not_pending p.status q.status h.follows e) ∙ h.keeps_hash e;
  keeps_final = λ e.
      k.keeps_final (ap (λ (x : Purchase). is_final x.status) (h.keeps_final e) ∙ e)
      ∙ h.keeps_final e;
}

-- Every UPDATE of the repository moves the rows that it matches along the lifecycle.
own_expire-Moves :
    (e u : ℕ) (now : Time) (p : Purchase)
    → own_hold_lapsed e u now p ≡ true
    → Moves p (expire now p)
own_expire-Moves e u now p h = ground arith

event_expire-Moves :
    (e : ℕ) (now : Time) (p : Purchase) → event_hold_lapsed e now p ≡ true → Moves p (expire now p)
event_expire-Moves e now p h = ground arith

submit_row-Moves :
    (i u : ℕ) (k : Text) (now deadline : Time) (p : Purchase)
    → submittable i u p ≡ true
    → Moves p (submit_row k now deadline p)
submit_row-Moves i u k now deadline p h = ground arith

claim_row-Moves :
    (i u : ℕ) (now : Time) (retry claim : Duration) (force : Bool) (p : Purchase)
    → claimable i u now retry force p ≡ true
    → Moves p (claim_row now claim p)
claim_row-Moves i u now retry claim force p h = ground arith

settle_row-Moves :
    (i u : ℕ) (status : PurchaseStatus) (now : Time) (p : Purchase)
    → is_outcome_status status ≡ true
    → in_flight_owned i u p ≡ true
    → Moves p (settle_row status now p)
settle_row-Moves i u status now p o h = ground arith

expire_unresolved_row-Moves :
    (i u : ℕ) (now : Time) (fallback : Duration) (p : Purchase)
    → is_stale i u now fallback p ≡ true
    → Moves p (expire_unresolved_row now p)
expire_unresolved_row-Moves i u now fallback p h = ground arith

release_row-Moves :
    (e u i : ℕ) (now : Time) (p : Purchase)
    → replacement e u i p ≡ true
    → Moves p (release_row now p)
release_row-Moves e u i now p h = ground arith

recover_row-Moves :
    (i u : ℕ) (now : Time) (p : Purchase) → recovering i u p ≡ true → Moves p (recover_row now p)
recover_row-Moves i u now p h = ground arith

-- Since the tables were `old`.
abbrev Since : Db → Db → Type 0
Since old db = Survive Moves old.purchases db.purchases

survives :
    (old : Db) (p : Purchase → Bool) (f : Purchase → Purchase)
    → ((r : Purchase) → p r ≡ true → Moves r (f r))
    → Survives (Since old) p f
survives old p f moves db h =
    Survive-update Moves Moves-refl Moves-trans old.purchases db.purchases p f moves h

step-Since : (c : Call) (old db : Db) → Since old db → Since old (step c db)
unfolding step
step-Since (creates up i e u now hold) old db h =
    create-cases (Since old) up i e u now hold db (survives old _ _ (event_expire-Moves e now))
      (λ event db' _ k.
        Survive-cons Moves Moves-refl Moves-trans (new_purchase i event u now hold) _ _ k)
      h
step-Since (reads_active up e u now) old db h =
    get_active_for_event-cases (Since old) up e u now db
      (survives old _ _ (own_expire-Moves e u now)) h
step-Since (submits up i u k now deadline) old db h =
    submit_transaction-cases (Since old) up i u k now deadline db
      (λ consumed _ _. survives old _ _ (submit_row-Moves i u k now deadline) db h) h
step-Since (claims up i u now retry claim force) old db h =
    claim_verification-cases (Since old) up i u now retry claim force db
      (survives old _ _ (claim_row-Moves i u now retry claim force)) h
step-Since (settles up i u status now clock) old db h =
    set_verification_state-cases (Since old) up i u status now clock db (λ _ _ _ _ k. k)
      (λ o. survives old _ _ (λ p. settle_row-Moves i u status now p o)) h
step-Since (expires up i u now fallback) old db h =
    expire_unresolved-cases (Since old) up i u now fallback db
      (survives old _ _ (expire_unresolved_row-Moves i u now fallback)) h
step-Since (recovers up i u now clock) old db h =
    confirm_expired_recovery-cases (Since old) up i u now clock db (λ _ _ _ _ k. k)
      (survives old _ _ (recover_row-Moves i u now))
      (λ c. survives old _ _ (release_row-Moves c.event_id u c.id now)) h

run-Since : (cs : List Call) (old db : Db) → Since old db → Since old (run cs db)
unfolding run
run-Since [] old db h = h
run-Since (c ∷ cs) old db h = run-Since cs old (step c db) (step-Since c old db h)

-- Whatever calls are made on purchases, in any order and with any failures of the database: every
-- purchase of the table is still there, with its identity, event, buyer and amount; its status went
-- along the lifecycle; its hash is fixed from the submission on; and a purchase that was confirmed,
-- failed or cancelled is unchanged in every column.
pub purchases-Survive :
    (cs : List Call) (db : Db) → Survive Moves db.purchases (run cs db).purchases
purchases-Survive cs db =
    run-Since cs db db (Survive-refl Moves Moves-refl Moves-trans db.purchases)
