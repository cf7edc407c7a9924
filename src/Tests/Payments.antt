-- ===== src/Tests/Payments.antt =====
-- One table with a payment request and an event, and the theorems on all calls at two runs.
use nim_near.Prelude.{
  ◌>>=◌, find, ok, refl, arith, ◌≡◌, true, false, none, some, List, [], ◌∷◌, Text, codes, Survive,
}
use nim_near.Store.{
  Purchase, Db, Answers, EventStatus, EventRow, Request, RequestStatus, PurchaseStatus,
}
use nim_near.Requests.Settle as RequestSettle
use nim_near.Requests.Claim.{request_claim_excludes}
use nim_near.Purchases.Settle as PurchaseSettle
use nim_near.Purchases.Claim.{purchase_claim_excludes}
use nim_near.Purchases.Create.{new_purchase}
use nim_near.Requests.Calls as RequestCalls
use nim_near.Requests.Lifecycle as RequestLifecycle
use nim_near.Requests.Lifecycle.{requests-Survive}
use nim_near.Purchases.Calls as PurchaseCalls
use nim_near.Purchases.Lifecycle as PurchaseLifecycle
use nim_near.Purchases.Lifecycle.{purchases-Survive}
use nim_near.Payments.Calls.{Call, on_request, on_purchase, run}
use nim_near.Payments.Reserved.{IsReserved, run-IsReserved}
use nim_near.Payments.Once.{PaysOnce, run-PaysOnce}

abbrev pub up : Answers
up _ = true

abbrev pub a_hash : Text
a_hash = codes "ab"

abbrev pub a_request : Request
a_request = record {
  id = 7;
  public_id = 70;
  creator_user_id = 1;
  recipient_address = codes "NQ07";
  amount_lunas = 500;
  note = none;
  status = RequestStatus.pending;
  expires_at = 1000;
  cancelled_at = none;
  paid_at = none;
  payer_user_id = none;
  transaction_hash = none;
  reconciliation_deadline_at = none;
  last_verification_attempt_at = none;
  verification_claimed_until = none;
  created_at = 0;
  updated_at = 0;
}

abbrev pub an_event : EventRow
an_event = record {
  id = 3;
  title = codes "Meetup";
  description = [];
  starts_at = 4000;
  ends_at = 5000;
  status = EventStatus.published;
  price_lunas = 500;
  currency = codes "NIM";
  capacity = some 1;
  attendee_count = 0;
  image_url = [];
  calendar_id = none;
  place_id = none;
  address = none;
  city = codes "Izmir";
  organizer_id = some 1;
  is_public = true;
  created_at = 0;
  updated_at = 0;
}

abbrev pub a_db : Db
a_db = record {
  requests = a_request ∷ [];
  purchases = [];
  consumed = [];
  events = an_event ∷ [];
  participants = [];
}

abbrev request_calls : List RequestCalls.Call
request_calls =
    RequestCalls.submits up 70 2 a_hash 10 900
    ∷ RequestCalls.claims true 7 20 5 5 false
    ∷ RequestCalls.settles up 7 RequestStatus.paid 30
    ∷ []

requests-Survive_example :
    Survive RequestLifecycle.Moves a_db.requests (RequestCalls.run request_calls a_db).requests
requests-Survive_example = requests-Survive request_calls a_db

abbrev purchase_calls : List PurchaseCalls.Call
purchase_calls =
    PurchaseCalls.creates up 8 3 2 10 600
    ∷ PurchaseCalls.submits up 8 2 a_hash 20 900
    ∷ PurchaseCalls.claims true 8 2 30 5 5 false
    ∷ PurchaseCalls.settles up 8 2 PurchaseStatus.confirmed 40 41
    ∷ []

abbrev bought : Db
bought = PurchaseCalls.run purchase_calls a_db

purchases-Survive_example :
    Survive PurchaseLifecycle.Moves bought.purchases
      (PurchaseCalls.run (PurchaseCalls.reads_active up 3 2 50 ∷ []) bought).purchases
purchases-Survive_example = purchases-Survive (PurchaseCalls.reads_active up 3 2 50 ∷ []) bought

-- The purchase takes the hash first: the request cannot.
abbrev both : List Call
both =
    on_purchase (PurchaseCalls.creates up 8 3 2 10 600)
    ∷ on_purchase (PurchaseCalls.submits up 8 2 a_hash 20 900)
    ∷ on_request (RequestCalls.submits up 70 2 a_hash 30 900)
    ∷ []

a_db-IsReserved : IsReserved a_db
a_db-IsReserved = record { requests = ((λ h e. cc), tt); purchases = tt }

run-IsReserved_example : IsReserved (run both a_db)
run-IsReserved_example = run-IsReserved both a_db a_db-IsReserved

run-PaysOnce_example : PaysOnce (run both a_db)
run-PaysOnce_example = run-PaysOnce both a_db a_db-IsReserved

-- The row that a claim at 20 hands out.
abbrev claimed : Request
claimed = record a_request {
  status = RequestStatus.submitted;
  payer_user_id = some 2;
  transaction_hash = some a_hash;
  reconciliation_deadline_at = some 900;
  last_verification_attempt_at = some 20;
  verification_claimed_until = some 30000020;
  updated_at = 10;
}

abbrev pub waiting_db : Db
waiting_db = record a_db {
  requests =
      record claimed { last_verification_attempt_at = none; verification_claimed_until = none }
      ∷ [];
}

waiting_claim :
    (RequestSettle.claim_verification true 7 20 5 5 false waiting_db).0 ≡ ok (some claimed)
unfolding RequestSettle.claim_verification ◌>>=◌ find
waiting_claim = refl

request_claim_excludes_example :
    (RequestSettle.claim_verification true 7 30 5 5 true
      (RequestSettle.claim_verification true 7 20 5 5 false waiting_db).1).0
    ≡ ok none
request_claim_excludes_example =
    request_claim_excludes true 7 20 30 5 5 5 5 false true waiting_db claimed (tt, tt) waiting_claim
      (omega arith)

abbrev pub a_purchase : Purchase
a_purchase = record {
  id = 8;
  event_id = 3;
  user_id = 2;
  amount_lunas = 500;
  status = PurchaseStatus.submitted;
  capacity_hold_expires_at = none;
  reconciliation_deadline_at = some 900;
  last_verification_attempt_at = none;
  verification_claimed_until = none;
  transaction_hash = some a_hash;
  created_at = 10;
  updated_at = 20;
  confirmed_at = none;
}

abbrev pub purchase_db : Db
purchase_db = record a_db { purchases = a_purchase ∷ [] }

abbrev claimed_purchase : Purchase
claimed_purchase = record a_purchase {
  last_verification_attempt_at = some 20;
  verification_claimed_until = some 30000020;
}

purchase_claim :
    (PurchaseSettle.claim_verification true 8 2 20 5 5 false purchase_db).0
    ≡ ok (some claimed_purchase)
unfolding PurchaseSettle.claim_verification ◌>>=◌ find
purchase_claim = refl

purchase_claim_excludes_example :
    (PurchaseSettle.claim_verification true 8 2 30 5 5 true
      (PurchaseSettle.claim_verification true 8 2 20 5 5 false purchase_db).1).0
    ≡ ok none
purchase_claim_excludes_example =
    purchase_claim_excludes true 8 2 20 30 5 5 5 5 false true purchase_db claimed_purchase (tt, tt)
      purchase_claim (omega arith)

abbrev sold_seat : Purchase
sold_seat = new_purchase 8 an_event 2 10 600

abbrev sold_db : Db
sold_db = record a_db { purchases = sold_seat ∷ [] }
