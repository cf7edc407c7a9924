-- ===== src/Purchases/UseCase/Reconcile.antt =====
-- purchase.go: reconcilePurchase, one verification attempt, and Reconcile, the pass of the worker.
use nim_near.Prelude.{
  ℕ, ◌+◌, Bool, not, Option, none, some, List, [], ◌∷◌, ltb, if◌then◌else◌, coalesce, Result, ok,
  err,
}
use nim_near.Store.{
  Db, Answers, Time, Purchase, PurchaseStatus, purchase_in_flight, purchase_status_eq,
}
use nim_near.Nimiq.Verifier.{
  Verdict, outcome, unreachable, not_found, not_final, confirmed, invalid,
}
use nim_near.Realtime.{StatusChanged}
use nim_near.UseCases.{Policy}
use nim_near.Purchases.Settle.{
  claim_verification, set_verification_state, expire_unresolved, list_reconciliation_candidates,
}
use nim_near.Purchases.UseCase.Setup.{PurchaseUseCase, publish_status}

-- The strings of reconciliationClassification; `untouched` is the empty class.
pub data Class : Type 0 where
  untouched class_confirmed class_invalid class_not_final class_not_found : Class
  class_transient stale_expired state_update_error claim_unavailable : Class

-- One attempt: the row that the caller gets, the result, the tables, and the published events.
pub record Attempt : Type 0 where
  pub row : Purchase
  pub before : PurchaseStatus
  pub after : PurchaseStatus
  pub class : Class
  pub db : Db
  pub events : List StatusChanged

-- What the attempt meets: which database calls of the claim and of the update are answered, and the
-- readings of the clock, in order. `db_time` is NOW() of the update.
pub record Run : Type 0 where
  pub claim_up : Bool
  pub update_up : Answers
  pub claim_time : Time
  pub update_time : Time
  pub db_time : Time
  pub publish_time : Time

abbrev pub unchanged : Purchase → Class → Db → Attempt
unchanged p class db = record {
  row = p;
  before = p.status;
  after = p.status;
  class = class;
  db = db;
  events = [];
}

unfoldable pub reconciliation_deadline_elapsed : Policy → Purchase → Time → Bool
reconciliation_deadline_elapsed policy p now =
    not (ltb now (coalesce p.reconciliation_deadline_at (p.updated_at + policy.deadline)))

-- The common end of persistVerificationState and expireStale. `purchase` is the row of the caller,
-- and `row` the claimed one, which they start from.
unfoldable pub report :
    PurchaseUseCase → Run → Purchase → Purchase → Class → Result Purchase × Db → Attempt
report uc run purchase row class (err e, db) = record (unchanged purchase state_update_error db) {
  row = row;
}
report uc run purchase row class (ok updated, db) = record {
  row = updated;
  before = purchase.status;
  after = updated.status;
  class = class;
  db = db;
  events =
      if purchase_status_eq updated.status row.status
      then []
      else publish_status uc.events run.publish_time updated;
}

unfoldable pub persist_verification_state :
    PurchaseUseCase → Run → Purchase → Purchase → PurchaseStatus → Class → Db → Attempt
persist_verification_state uc run purchase row status class db =
    report uc run purchase row class (
      set_verification_state run.update_up row.id row.user_id status run.update_time run.db_time db)

unfoldable pub expire_stale : PurchaseUseCase → Run → Purchase → Purchase → Db → Attempt
expire_stale uc run purchase row db =
    report uc run purchase row stale_expired
      (expire_unresolved run.update_up row.id row.user_id run.update_time uc.policy.deadline db)

-- A verdict that settles nothing: a stale row expires, another waits for the next attempt.
unfoldable pub unresolved :
    PurchaseUseCase → Run → Purchase → Purchase → Bool → Class → Db → Attempt
unresolved uc run purchase claimed stale class db =
    if stale then expire_stale uc run purchase claimed db else unchanged purchase class db

unfoldable pub settle : PurchaseUseCase → Run → Purchase → Purchase → Bool → Verdict → Db → Attempt
settle uc run purchase claimed stale unreachable db =
    unresolved uc run purchase claimed stale class_transient db
settle uc run purchase claimed stale (outcome confirmed) db =
    persist_verification_state uc run purchase claimed PurchaseStatus.confirmed class_confirmed db
settle uc run purchase claimed stale (outcome invalid) db =
    persist_verification_state uc run purchase claimed PurchaseStatus.failed class_invalid db
settle uc run purchase claimed stale (outcome not_final) db =
    if stale
    then expire_stale uc run purchase claimed db
    else persist_verification_state uc run purchase claimed PurchaseStatus.verifying class_not_final
        db
settle uc run purchase claimed stale (outcome not_found) db =
    unresolved uc run purchase claimed stale class_not_found db

unfoldable pub claimed_or_not :
    PurchaseUseCase
    → Run
    → Purchase
    → Bool
    → (Purchase → Verdict)
    → Result (Option Purchase) × Db
    → Attempt
claimed_or_not uc run purchase stale verify (err e, db) = unchanged purchase state_update_error db
claimed_or_not uc run purchase stale verify (ok none, db) = unchanged purchase claim_unavailable db
claimed_or_not uc run purchase stale verify (ok (some claimed), db) =
    settle uc run purchase claimed stale (verify claimed) db

unfoldable pub attempt : PurchaseUseCase → Run → Purchase → (Purchase → Verdict) → Db → Attempt
attempt uc run purchase verify db =
    if purchase_in_flight purchase.status
    then claimed_or_not uc run purchase
        (reconciliation_deadline_elapsed uc.policy purchase run.claim_time) verify
        (claim_verification run.claim_up purchase.id purchase.user_id run.claim_time
          uc.policy.interval uc.policy.interval
          (reconciliation_deadline_elapsed uc.policy purchase run.claim_time) db)
    else unchanged purchase untouched db

-- `uc.verifier == nil`
unfoldable pub reconcile_with :
    Option (Purchase → Verdict) → PurchaseUseCase → Run → Purchase → Db → Attempt
reconcile_with none uc run purchase db = unchanged purchase untouched db
reconcile_with (some verify) uc run purchase db = attempt uc run purchase verify db

unfoldable pub reconcile_purchase : PurchaseUseCase → Run → Purchase → Db → Attempt
reconcile_purchase uc run purchase db = reconcile_with uc.verifier uc run purchase db

-- The loop of Reconcile: each candidate has a run of its own.
unfoldable pub reconcile_all : PurchaseUseCase → (ℕ → Run) → List Purchase → Db → List Attempt × Db
reconcile_all uc runs [] db = ([], db)
reconcile_all uc runs (p ∷ ps) db =
    let done = reconcile_purchase uc (runs p.id) p db in
    let (rest, last) = reconcile_all uc runs ps done.db in (done ∷ rest, last)

-- `err` is the error of the listing.
unfoldable pub reconcile :
    PurchaseUseCase → Bool → Time → (ℕ → Run) → Db → Result (List Attempt) × Db
reconcile uc up now runs db =
    elim (list_reconciliation_candidates up now uc.policy.interval uc.policy.deadline
      uc.policy.batch_size db) [
        | err e ↦ (err e, db)
        | ok candidates ↦
            let (attempts, last) = reconcile_all uc runs candidates db in (ok attempts, last)
      ]
