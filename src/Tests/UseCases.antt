-- ===== src/Tests/UseCases.antt =====
-- The use cases at concrete inputs.
use nim_near.Prelude.{
  ok, ◌≡◌, ◌≤◌, ◌>>=◌, take, sort_by, select, length, All, refl, Some, arith, true, none, some, [],
  ◌∷◌, codes,
}
use nim_near.Store.{Db, Request, RequestStatus, minute, hour}
use nim_near.Nimiq.Verifier.{verify_transfer, verify_purchase}
use nim_near.Purchases.UseCase.Setup.{PurchaseUseCase}
use nim_near.Purchases.UseCase.Reconcile.{Run as PurchaseRun, reconcile_purchase}
use nim_near.Purchases.UseCase.Verified.{NewlyConfirmed}
use nim_near.UseCases.{Policy}
use nim_near.Requests.Settle.{list_reconciliation_candidates}
use nim_near.Requests.Candidates.{MayBeClaimed, candidates-MayBeClaimed}
use nim_near.Requests.UseCase.Setup.{RequestUseCase}
use nim_near.Requests.UseCase.Reconcile.{Run, reconcile_request}
use nim_near.Requests.UseCase.Verified.{NewlyPaid}
use nim_near.Payments.OnChain.{
  IsRequestPaid, reconcile_request-IsRequestPaid, IsPurchasePaid, reconcile_purchase-IsPurchasePaid,
}
use nim_near.Tests.Payments.{waiting_db, a_purchase, purchase_db, up, a_request, a_hash, a_db}
use nim_near.Tests.Nimiq.{a_verifier}

abbrev pub a_run : Run
a_run = record {
  claim_up = true;
  update_up = up;
  claim_time = 30;
  update_time = 40;
  publish_time = 50;
}

abbrev pub request_use_case : RequestUseCase
request_use_case = record {
  identities = none;
  ttl = hour;
  verifier = some (verify_transfer (a_verifier 5));
  network = codes "mainnet";
  policy = record { interval = minute; deadline = hour; batch_size = 50 };
  events = none;
}

abbrev submitted : Request
submitted = record a_request {
  status = RequestStatus.submitted;
  payer_user_id = some 2;
  transaction_hash = some a_hash;
}

abbrev submitted_db : Db
submitted_db = record a_db { requests = submitted ∷ [] }

reconcile_request-IsRequestPaid_example :
    NewlyPaid
      (λ id. (id ≡ 7) × Some (IsRequestPaid (a_verifier 5) id) submitted_db.requests)
      submitted_db
      (reconcile_request request_use_case a_run submitted submitted_db).db
reconcile_request-IsRequestPaid_example =
    reconcile_request-IsRequestPaid (a_verifier 5) request_use_case a_run submitted submitted_db
      (omega arith, tt) refl

abbrev pub purchase_run : PurchaseRun
purchase_run = record {
  claim_up = true;
  update_up = up;
  claim_time = 60;
  update_time = 70;
  db_time = 70;
  publish_time = 80;
}

abbrev purchase_use_case : PurchaseUseCase
purchase_use_case = record {
  identities = none;
  verifier = some (verify_purchase (a_verifier 5));
  hold_duration = minute;
  recipient = codes "NQ07";
  network = codes "mainnet";
  policy = record { interval = minute; deadline = hour; batch_size = 50 };
  events = none;
}

reconcile_purchase-IsPurchasePaid_example :
    NewlyConfirmed
      (λ id user.
        (id ≡ 8) × (user ≡ 2) × Some (IsPurchasePaid (a_verifier 5) id user) purchase_db.purchases)
      purchase_db
      (reconcile_purchase purchase_use_case purchase_run a_purchase purchase_db).db
reconcile_purchase-IsPurchasePaid_example =
    reconcile_purchase-IsPurchasePaid (a_verifier 5) purchase_use_case purchase_run a_purchase
      purchase_db (omega arith, tt) refl

abbrev a_policy : Policy
a_policy = record { interval = minute; deadline = hour; batch_size = 50 }

waiting_batch :
    list_reconciliation_candidates true 20 a_policy.interval a_policy.deadline 50 waiting_db
    ≡ ok waiting_db.requests
unfolding list_reconciliation_candidates ◌>>=◌ take sort_by select
waiting_batch = refl

candidates-MayBeClaimed_example :
    (length waiting_db.requests ≤ 50) × All (MayBeClaimed a_policy 20) waiting_db.requests
candidates-MayBeClaimed_example =
    candidates-MayBeClaimed true a_policy 20 50 3599 waiting_db waiting_db.requests (omega arith)
      waiting_batch
