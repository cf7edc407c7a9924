-- ===== src/Requests/UseCase/Reconcile.antt =====
-- reconciliation.go: one verification attempt, and the bounded pass of the worker.
use nim_near.Prelude.{
  ℕ, pos, ◌+◌, Bool, not, ◌||◌, Option, none, some, List, [], ◌∷◌, ltb, ◌==◌, if◌then◌else◌,
  is_none, coalesce, exists, Result, ok, err,
}
use nim_near.Store.{Db, Answers, Time, Request, RequestStatus, request_in_flight, request_status_eq}
use nim_near.Nimiq.Verifier.{
  Transfer, Verdict, outcome, unreachable, not_found, not_final, confirmed, invalid,
}
use nim_near.Realtime.{StatusChanged}
use nim_near.Requests.Settle.{
  claim_verification, set_verification_state, expire_unresolved, list_reconciliation_candidates,
}
use nim_near.Requests.UseCase.Setup.{RequestUseCase, publish_status}
use nim_near.UseCases.{Policy}

-- The strings of reconciliationClassification; `untouched` is the empty class.
pub data Class : Type 0 where
  untouched class_paid class_invalid class_not_final class_not_found class_transient : Class
  stale_expired state_update_error claim_unavailable : Class
  -- A nil hash or payer of the claimed row is dereferenced, and the goroutine panics.
  nil_dereference : Class

-- One attempt: the row that the caller gets, the result, the tables, and the published events.
pub record Attempt : Type 0 where
  pub row : Request
  pub before : RequestStatus
  pub after : RequestStatus
  pub class : Class
  pub db : Db
  pub events : List StatusChanged

-- What the attempt meets: which database calls of the claim and of the update are answered, and the
-- readings of the clock, in order.
pub record Run : Type 0 where
  pub claim_up : Bool
  pub update_up : Answers
  pub claim_time : Time
  pub update_time : Time
  pub publish_time : Time

abbrev pub unchanged : Request → Class → Db → Attempt
unchanged r class db = record {
  row = r;
  before = r.status;
  after = r.status;
  class = class;
  db = db;
  events = [];
}

unfoldable pub reconciliation_deadline_elapsed : Policy → Request → Time → Bool
reconciliation_deadline_elapsed policy r now =
    not (ltb now (coalesce r.reconciliation_deadline_at (r.updated_at + policy.deadline)))

-- The common end of persistVerificationState and expireStale. `request` is the row of the caller,
-- and `row` the one that the update started from.
unfoldable pub report :
    RequestUseCase → Run → Request → Request → Class → Result Request × Db → Attempt
report uc run request row class (err e, db) = record (unchanged request state_update_error db) {
  row = row;
}
report uc run request row class (ok updated, db) = record {
  row = updated;
  before = request.status;
  after = updated.status;
  class = class;
  db = db;
  events =
      if request_status_eq updated.status row.status
      then []
      else publish_status uc.events run.publish_time updated;
}

unfoldable pub persist_verification_state :
    RequestUseCase → Run → Request → Request → RequestStatus → Class → Db → Attempt
persist_verification_state uc run request row status class db =
    report uc run request row class
      (set_verification_state run.update_up row.id status run.update_time db)

unfoldable pub expire_stale : RequestUseCase → Run → Request → Request → Db → Attempt
expire_stale uc run request row db =
    report uc run request row stale_expired
      (expire_unresolved run.update_up row.id run.update_time uc.policy.deadline db)

-- A verdict that settles nothing: a stale row expires, another waits for the next attempt.
unfoldable pub unresolved : RequestUseCase → Run → Request → Request → Bool → Class → Db → Attempt
unresolved uc run request claimed stale class db =
    if stale then expire_stale uc run request claimed db else unchanged request class db

unfoldable pub settle : RequestUseCase → Run → Request → Request → Bool → Verdict → Db → Attempt
settle uc run request claimed stale unreachable db =
    unresolved uc run request claimed stale class_transient db
settle uc run request claimed stale (outcome confirmed) db =
    persist_verification_state uc run request claimed RequestStatus.paid class_paid db
settle uc run request claimed stale (outcome invalid) db =
    persist_verification_state uc run request claimed RequestStatus.failed class_invalid db
settle uc run request claimed stale (outcome not_final) db =
    if stale
    then expire_stale uc run request claimed db
    else persist_verification_state uc run request claimed RequestStatus.verifying class_not_final
        db
settle uc run request claimed stale (outcome not_found) db =
    unresolved uc run request claimed stale class_not_found db

-- The Transfer of a row. `none` is a nil hash or payer.
abbrev pub transfer_of : Request → Option Transfer
transfer_of r = elim r.transaction_hash [
  | none ↦ none
  | some h ↦ elim r.payer_user_id [
    | none ↦ none
    | some p ↦ some (record {
      transaction_hash = h;
      recipient = r.recipient_address;
      amount_lunas = pos r.amount_lunas;
      payer_user_id = p;
    })
  ]
]

unfoldable pub verify_claimed :
    RequestUseCase → Run → Request → Request → Bool → (Transfer → Verdict) → Db → Attempt
verify_claimed uc run request claimed stale verify db = elim (transfer_of claimed) [
  | none ↦ unchanged request nil_dereference db
  | some t ↦ settle uc run request claimed stale (verify t) db
]

unfoldable pub claimed_or_not :
    RequestUseCase
    → Run
    → Request
    → Bool
    → (Transfer → Verdict)
    → Result (Option Request) × Db
    → Attempt
claimed_or_not uc run request stale verify (err e, db) = unchanged request state_update_error db
claimed_or_not uc run request stale verify (ok none, db) = unchanged request claim_unavailable db
claimed_or_not uc run request stale verify (ok (some claimed), db) =
    verify_claimed uc run request claimed stale verify db

abbrev pub has_payer : Request → Bool
has_payer r = exists (λ p. not (p == 0)) r.payer_user_id

unfoldable pub attempt : RequestUseCase → Run → Request → (Transfer → Verdict) → Db → Attempt
attempt uc run request verify db =
    if is_none request.transaction_hash || not (request_in_flight request.status)
    then unchanged request untouched db
    else if not (has_payer request)
    then persist_verification_state uc run request request RequestStatus.failed class_invalid db
    else claimed_or_not uc run request
        (reconciliation_deadline_elapsed uc.policy request run.claim_time) verify
        (claim_verification run.claim_up request.id run.claim_time uc.policy.interval
          uc.policy.interval (reconciliation_deadline_elapsed uc.policy request run.claim_time) db)

-- `uc.verifier == nil`
unfoldable pub reconcile_with :
    Option (Transfer → Verdict) → RequestUseCase → Run → Request → Db → Attempt
reconcile_with none uc run request db = unchanged request untouched db
reconcile_with (some verify) uc run request db = attempt uc run request verify db

unfoldable pub reconcile_request : RequestUseCase → Run → Request → Db → Attempt
reconcile_request uc run request db = reconcile_with uc.verifier uc run request db

-- The loop of Reconcile: each candidate has a run of its own.
unfoldable pub reconcile_all : RequestUseCase → (ℕ → Run) → List Request → Db → List Attempt × Db
reconcile_all uc runs [] db = ([], db)
reconcile_all uc runs (r ∷ rs) db =
    let done = reconcile_request uc (runs r.id) r db in
    let (rest, last) = reconcile_all uc runs rs done.db in (done ∷ rest, last)

-- `err` is the error of the listing.
unfoldable pub reconcile :
    RequestUseCase → Bool → Time → (ℕ → Run) → Db → Result (List Attempt) × Db
reconcile uc up now runs db =
    elim (list_reconciliation_candidates up now uc.policy.interval uc.policy.deadline
      uc.policy.batch_size db) [
        | err e ↦ (err e, db)
        | ok candidates ↦
            let (attempts, last) = reconcile_all uc runs candidates db in (ok attempts, last)
      ]
