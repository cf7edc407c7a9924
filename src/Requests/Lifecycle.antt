-- ===== src/Requests/Lifecycle.antt =====
-- The lifecycle of a payment request: which states may follow which, and what never changes.
use nim_near.Prelude.{
  ℕ, ◌∙◌, ap, ◌≡◌, refl, Bool, true, false, List, [], ◌∷◌, arith, Text, Survive, Survive-refl,
  Survive-update, Survive-cons,
}
use nim_near.Store.{Db, Time, Duration, Request, RequestStatus, request_is_pending}
use nim_near.Requests.Rows.{is_due, expire, inserted, creator_due}
use nim_near.Requests.Cancel.{cancellable, cancel_row}
use nim_near.Requests.Submit.{submittable, submit_row}
use nim_near.Requests.Settle.{
  claimable, claim_row, in_flight_id, settle_row, is_outcome_status, is_stale,
  expire_unresolved_row, recovering, recover_row,
}
use nim_near.Requests.Calls.{
  Call, creates, reads, reads_owned, lists, cancels, submits, claims, settles, expires, recovers,
  step, run,
}
use nim_near.Requests.Cases.{
  Survives, create-cases, get_by_public_id-cases, get_owned_by_public_id-cases,
  list_by_creator-cases, cancel-cases, submit_transaction-cases, claim_verification-cases,
  set_verification_state-cases, expire_unresolved-cases, confirm_expired_recovery-cases,
}

-- paid, failed and cancelled are final; expired may only become paid.
abbrev pub is_final : RequestStatus → Bool
is_final RequestStatus.paid = true
is_final RequestStatus.failed = true
is_final RequestStatus.cancelled = true
is_final _ = false

abbrev pub may_become : RequestStatus → RequestStatus → Bool
may_become RequestStatus.pending t = true
may_become RequestStatus.submitted RequestStatus.pending = false
may_become RequestStatus.submitted RequestStatus.cancelled = false
may_become RequestStatus.submitted t = true
may_become RequestStatus.verifying RequestStatus.pending = false
may_become RequestStatus.verifying RequestStatus.submitted = false
may_become RequestStatus.verifying RequestStatus.cancelled = false
may_become RequestStatus.verifying t = true
may_become RequestStatus.expired RequestStatus.expired = true
may_become RequestStatus.expired RequestStatus.paid = true
may_become RequestStatus.paid RequestStatus.paid = true
may_become RequestStatus.failed RequestStatus.failed = true
may_become RequestStatus.cancelled RequestStatus.cancelled = true
may_become s t = false

-- One row, before and after.
pub record Moves (r s : Request) : Type 0 where
  pub same_id : s.id ≡ r.id
  pub same_public_id : s.public_id ≡ r.public_id
  pub same_creator : s.creator_user_id ≡ r.creator_user_id
  pub same_recipient : s.recipient_address ≡ r.recipient_address
  pub same_amount : s.amount_lunas ≡ r.amount_lunas
  pub same_note : s.note ≡ r.note
  pub same_expiry : s.expires_at ≡ r.expires_at
  pub follows : may_become r.status s.status ≡ true
  pub keeps_hash : request_is_pending r.status ≡ false → s.transaction_hash ≡ r.transaction_hash
  pub keeps_payer : request_is_pending r.status ≡ false → s.payer_user_id ≡ r.payer_user_id
  pub keeps_final : is_final r.status ≡ true → s ≡ r

may_become_refl : (s : RequestStatus) → may_become s s ≡ true
may_become_refl RequestStatus.pending = refl
may_become_refl _ = refl

may_become_trans :
    (s t u : RequestStatus) → may_become s t ≡ true → may_become t u ≡ true → may_become s u ≡ true
may_become_trans s t u h k = ground arith

Moves-refl : (r : Request) → Moves r r
Moves-refl r = ground (arith, may_become_refl r.status)

not_pending :
    (s t : RequestStatus)
    → may_become s t ≡ true
    → request_is_pending s ≡ false
    → request_is_pending t ≡ false
not_pending s t h k = ground arith

Moves-trans : (r s t : Request) → Moves r s → Moves s t → Moves r t
Moves-trans r s t h k = record {
  same_id = k.same_id ∙ h.same_id;
  same_public_id = k.same_public_id ∙ h.same_public_id;
  same_creator = k.same_creator ∙ h.same_creator;
  same_recipient = k.same_recipient ∙ h.same_recipient;
  same_amount = k.same_amount ∙ h.same_amount;
  same_note = k.same_note ∙ h.same_note;
  same_expiry = k.same_expiry ∙ h.same_expiry;
  follows = may_become_trans r.status s.status t.status h.follows k.follows;
  keeps_hash = λ p. k.keeps_hash (not_pending r.status s.status h.follows p) ∙ h.keeps_hash p;
  keeps_payer = λ p. k.keeps_payer (not_pending r.status s.status h.follows p) ∙ h.keeps_payer p;
  keeps_final = λ p.
      k.keeps_final (ap (λ (x : Request). is_final x.status) (h.keeps_final p) ∙ p)
      ∙ h.keeps_final p;
}

-- Every UPDATE of the repository moves the rows that it matches along the lifecycle.
expire-Moves : (i : ℕ) (now : Time) (r : Request) → is_due i now r ≡ true → Moves r (expire now r)
expire-Moves i now r h = ground arith

creator_expire-Moves :
    (i : ℕ) (now : Time) (r : Request) → creator_due i now r ≡ true → Moves r (expire now r)
creator_expire-Moves i now r h = ground arith

cancel_row-Moves :
    (i c : ℕ) (now : Time) (r : Request) → cancellable i c r ≡ true → Moves r (cancel_row now r)
cancel_row-Moves i c now r h = ground arith

submit_row-Moves :
    (i p : ℕ) (h : Text) (now deadline : Time) (r : Request)
    → submittable i r ≡ true
    → Moves r (submit_row p h now deadline r)
submit_row-Moves i p h now deadline r e = ground arith

claim_row-Moves :
    (i : ℕ) (now : Time) (retry claim : Duration) (force : Bool) (r : Request)
    → claimable i now retry force r ≡ true
    → Moves r (claim_row now claim r)
claim_row-Moves i now retry claim force r h = ground arith

settle_row-Moves :
    (i : ℕ) (status : RequestStatus) (now : Time) (r : Request)
    → is_outcome_status status ≡ true
    → in_flight_id i r ≡ true
    → Moves r (settle_row status now r)
settle_row-Moves i status now r o h = ground arith

expire_unresolved_row-Moves :
    (i : ℕ) (now : Time) (fallback : Duration) (r : Request)
    → is_stale i now fallback r ≡ true
    → Moves r (expire_unresolved_row now r)
expire_unresolved_row-Moves i now fallback r h = ground arith

recover_row-Moves :
    (i : ℕ) (now : Time) (r : Request) → recovering i r ≡ true → Moves r (recover_row now r)
recover_row-Moves i now r h = ground arith

-- Since the tables were `old`.
abbrev Since : Db → Db → Type 0
Since old db = Survive Moves old.requests db.requests

survives :
    (old : Db) (p : Request → Bool) (f : Request → Request)
    → ((r : Request) → p r ≡ true → Moves r (f r))
    → Survives (Since old) p f
survives old p f moves db h =
    Survive-update Moves Moves-refl Moves-trans old.requests db.requests p f moves h

step-Since : (c : Call) (old db : Db) → Since old db → Since old (step c db)
unfolding step
step-Since (creates up r) old db h =
    create-cases (Since old) up r db
      (λ _. Survive-cons Moves Moves-refl Moves-trans (inserted r) _ _ h) h
step-Since (reads up i now) old db h =
    get_by_public_id-cases (Since old) up i now db (survives old _ _ (expire-Moves i now)) h
step-Since (reads_owned up i c now) old db h =
    get_owned_by_public_id-cases (Since old) up i c now db (survives old _ _ (expire-Moves i now)) h
step-Since (lists up c now limit) old db h =
    list_by_creator-cases (Since old) up c now limit db
      (survives old _ _ (creator_expire-Moves c now)) h
step-Since (cancels up i c now) old db h =
    cancel-cases (Since old) up i c now db (survives old _ _ (expire-Moves i now))
      (survives old _ _ (cancel_row-Moves i c now)) h
step-Since (submits up i p k now deadline) old db h =
    submit_transaction-cases (Since old) up i p k now deadline db
      (survives old _ _ (expire-Moves i now))
      (λ current db' g consumed _ _.
        survives old _ _ (submit_row-Moves current.id p k now deadline) db' g)
      h
step-Since (claims up i now retry claim force) old db h =
    claim_verification-cases (Since old) up i now retry claim force db
      (survives old _ _ (claim_row-Moves i now retry claim force)) h
step-Since (settles up i status now) old db h =
    set_verification_state-cases (Since old) up i status now db
      (λ o. survives old _ _ (λ r. settle_row-Moves i status now r o)) h
step-Since (expires up i now fallback) old db h =
    expire_unresolved-cases (Since old) up i now fallback db
      (survives old _ _ (expire_unresolved_row-Moves i now fallback)) h
step-Since (recovers up i now) old db h =
    confirm_expired_recovery-cases (Since old) up i now db
      (survives old _ _ (recover_row-Moves i now)) h

run-Since : (cs : List Call) (old db : Db) → Since old db → Since old (run cs db)
unfolding run
run-Since [] old db h = h
run-Since (c ∷ cs) old db h = run-Since cs old (step c db) (step-Since c old db h)

-- Whatever calls are made, in any order and with any failures of the database: every payment
-- request of the table is still there, with its identity, creator, recipient, amount, note and
-- expiry; its status went along the lifecycle; hash and payer are fixed from the submission on; and
-- a request that was paid, failed or cancelled is unchanged in every column.
pub requests-Survive : (cs : List Call) (db : Db) → Survive Moves db.requests (run cs db).requests
requests-Survive cs db = run-Since cs db db (Survive-refl Moves Moves-refl Moves-trans db.requests)
