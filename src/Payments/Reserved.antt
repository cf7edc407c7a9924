-- ===== src/Payments/Reserved.antt =====
-- Every hash in a row of payment_requests or event_purchases is reserved for that row.
use nim_near.Prelude.{
  ℕ, ◌≡◌, subst, Bool, Option, none, some, List, [], ◌∷◌, arith, Text, All, All-mono,
  All-update_where,
}
use nim_near.Store.{
  Db, Time, Request, Purchase, Consumed, Domain, payment_request, event_purchase, BelongsTo,
  consume, consume-BelongsTo, consume-keeps,
}
use nim_near.Requests.Submit as RequestSubmit
use nim_near.Requests.Calls as Requests
use nim_near.Requests.Cases as RequestCases
use nim_near.Purchases.Submit as PurchaseSubmit
use nim_near.Purchases.Calls as Purchases
use nim_near.Purchases.Cases as PurchaseCases
use nim_near.Payments.Calls.{Call, on_request, on_purchase, step, run}

abbrev pub Backs : List Consumed → Domain → ℕ → Option Text → Type 0
Backs cs d id o = (h : Text) → o ≡ some h → BelongsTo h d id cs

abbrev pub BacksRequest : List Consumed → Request → Type 0
BacksRequest cs r = Backs cs payment_request r.id r.transaction_hash

abbrev pub BacksPurchase : List Consumed → Purchase → Type 0
BacksPurchase cs p = Backs cs event_purchase p.id p.transaction_hash

pub record IsReserved (db : Db) : Type 0 where
  pub requests : All (BacksRequest db.consumed) db.requests
  pub purchases : All (BacksPurchase db.consumed) db.purchases

-- An UPDATE that leaves id and hash alone.
request_update :
    (p : Request → Bool) (f : Request → Request)
    → ((cs : List Consumed) (r : Request) → BacksRequest cs r → BacksRequest cs (f r))
    → RequestCases.Survives IsReserved p f
request_update p f keep db h = record {
  requests = All-update_where p f db.requests (λ r _. keep db.consumed r) h.requests;
  purchases = h.purchases;
}

purchase_update :
    (p : Purchase → Bool) (f : Purchase → Purchase)
    → ((cs : List Consumed) (r : Purchase) → BacksPurchase cs r → BacksPurchase cs (f r))
    → PurchaseCases.Survives IsReserved p f
purchase_update p f keep db h = record {
  requests = h.requests;
  purchases = All-update_where p f db.purchases (λ r _. keep db.consumed r) h.purchases;
}

Backs-consume :
    (k : Text) (d : Domain) (i : ℕ) (now : Time) (cs cs' : List Consumed) (d' : Domain) (i' : ℕ)
    (o : Option Text)
    → consume k d i now cs ≡ some cs'
    → Backs cs d' i' o
    → Backs cs' d' i' o
Backs-consume k d i now cs cs' d' i' o e b h p = consume-keeps k d i now cs cs' h d' i' e (b h p)

-- The row that a submission writes is backed by the reservation that it makes.
Backs-new :
    (k : Text) (d : Domain) (i j : ℕ) (now : Time) (cs cs' : List Consumed)
    → i ≡ j
    → consume k d i now cs ≡ some cs'
    → Backs cs' d j (some k)
Backs-new k d i j now cs cs' q e h p =
    let k-eq-h : k ≡ h = cc in
    let owner : BelongsTo k d i cs' = consume-BelongsTo k d i now cs cs' e in
    subst (λ x. BelongsTo x d j cs') k-eq-h (subst (λ x. BelongsTo k d x cs') q owner)

request_submit :
    (current : Request) (payer : ℕ) (k : Text) (now deadline : Time) (db : Db)
    → IsReserved db
    → RequestCases.Submits IsReserved payer k now deadline current db
request_submit current payer k now deadline db h consumed _ e = record {
  requests =
      All-update_where (RequestSubmit.submittable current.id)
        (RequestSubmit.submit_row payer k now deadline) db.requests
        (λ r m _.
          Backs-new k payment_request current.id r.id now db.consumed consumed (ground arith) e)
        (All-mono db.requests
          (λ r.
            Backs-consume k payment_request current.id now db.consumed consumed payment_request r.id
              r.transaction_hash e)
          h.requests);
  purchases =
      All-mono db.purchases
        (λ p.
          Backs-consume k payment_request current.id now db.consumed consumed event_purchase p.id
            p.transaction_hash e)
        h.purchases;
}

purchase_submit :
    (id user : ℕ) (k : Text) (now deadline : Time) (db : Db)
    → IsReserved db
    → PurchaseCases.Submits IsReserved id user k now deadline db
purchase_submit id user k now deadline db h consumed _ e = record {
  requests =
      All-mono db.requests
        (λ r.
          Backs-consume k event_purchase id now db.consumed consumed payment_request r.id
            r.transaction_hash e)
        h.requests;
  purchases =
      All-update_where (PurchaseSubmit.submittable id user)
        (PurchaseSubmit.submit_row k now deadline) db.purchases
        (λ p m _. Backs-new k event_purchase id p.id now db.consumed consumed (ground arith) e)
        (All-mono db.purchases
          (λ p.
            Backs-consume k event_purchase id now db.consumed consumed event_purchase p.id
              p.transaction_hash e)
          h.purchases);
}

-- A new row has no hash.
Backs-none : (cs : List Consumed) (d : Domain) (i : ℕ) → Backs cs d i none
Backs-none cs d i h p = cc

request-IsReserved : (c : Requests.Call) (db : Db) → IsReserved db → IsReserved (Requests.step c db)
unfolding Requests.step
request-IsReserved (Requests.creates up r) db h =
    RequestCases.create-cases IsReserved up r db
      (λ _. record {
        requests = (Backs-none db.consumed payment_request r.id, h.requests);
        purchases = h.purchases;
      })
      h
request-IsReserved (Requests.reads up i now) db h =
    RequestCases.get_by_public_id-cases IsReserved up i now db (request_update _ _ (λ _ _ b. b)) h
request-IsReserved (Requests.reads_owned up i c now) db h =
    RequestCases.get_owned_by_public_id-cases IsReserved up i c now db
      (request_update _ _ (λ _ _ b. b)) h
request-IsReserved (Requests.lists up c now limit) db h =
    RequestCases.list_by_creator-cases IsReserved up c now limit db
      (request_update _ _ (λ _ _ b. b)) h
request-IsReserved (Requests.cancels up i c now) db h =
    RequestCases.cancel-cases IsReserved up i c now db (request_update _ _ (λ _ _ b. b))
      (request_update _ _ (λ _ _ b. b)) h
request-IsReserved (Requests.submits up i p k now deadline) db h =
    RequestCases.submit_transaction-cases IsReserved up i p k now deadline db
      (request_update _ _ (λ _ _ b. b))
      (λ current db' g. request_submit current p k now deadline db' g) h
request-IsReserved (Requests.claims up i now retry claim force) db h =
    RequestCases.claim_verification-cases IsReserved up i now retry claim force db
      (request_update _ _ (λ _ _ b. b)) h
request-IsReserved (Requests.settles up i status now) db h =
    RequestCases.set_verification_state-cases IsReserved up i status now db
      (λ _. request_update _ _ (λ _ _ b. b)) h
request-IsReserved (Requests.expires up i now fallback) db h =
    RequestCases.expire_unresolved-cases IsReserved up i now fallback db
      (request_update _ _ (λ _ _ b. b)) h
request-IsReserved (Requests.recovers up i now) db h =
    RequestCases.confirm_expired_recovery-cases IsReserved up i now db
      (request_update _ _ (λ _ _ b. b)) h

ignores_counters : PurchaseCases.IgnoresCounters IsReserved
ignores_counters db event n clock h = record { requests = h.requests; purchases = h.purchases }

purchase-IsReserved :
    (c : Purchases.Call) (db : Db) → IsReserved db → IsReserved (Purchases.step c db)
unfolding Purchases.step
purchase-IsReserved (Purchases.creates up i e u now hold) db h =
    PurchaseCases.create-cases IsReserved up i e u now hold db (purchase_update _ _ (λ _ _ b. b))
      (λ event db' _ k. record {
        requests = k.requests;
        purchases = (Backs-none db'.consumed event_purchase i, k.purchases);
      })
      h
purchase-IsReserved (Purchases.reads_active up e u now) db h =
    PurchaseCases.get_active_for_event-cases IsReserved up e u now db
      (purchase_update _ _ (λ _ _ b. b)) h
purchase-IsReserved (Purchases.submits up i u k now deadline) db h =
    PurchaseCases.submit_transaction-cases IsReserved up i u k now deadline db
      (purchase_submit i u k now deadline db h) h
purchase-IsReserved (Purchases.claims up i u now retry claim force) db h =
    PurchaseCases.claim_verification-cases IsReserved up i u now retry claim force db
      (purchase_update _ _ (λ _ _ b. b)) h
purchase-IsReserved (Purchases.settles up i u status now clock) db h =
    PurchaseCases.set_verification_state-cases IsReserved up i u status now clock db
      ignores_counters (λ _. purchase_update _ _ (λ _ _ b. b)) h
purchase-IsReserved (Purchases.expires up i u now fallback) db h =
    PurchaseCases.expire_unresolved-cases IsReserved up i u now fallback db
      (purchase_update _ _ (λ _ _ b. b)) h
purchase-IsReserved (Purchases.recovers up i u now clock) db h =
    PurchaseCases.confirm_expired_recovery-cases IsReserved up i u now clock db ignores_counters
      (purchase_update _ _ (λ _ _ b. b)) (λ _. purchase_update _ _ (λ _ _ b. b)) h

step-IsReserved : (c : Call) (db : Db) → IsReserved db → IsReserved (step c db)
unfolding step
step-IsReserved (on_request c) db h = request-IsReserved c db h
step-IsReserved (on_purchase c) db h = purchase-IsReserved c db h

-- If every hash that a payment request or a purchase carries is reserved for that row in the table
-- of consumed hashes, then it is so after any calls of both repositories, in any order and with any
-- failures of the database.
pub run-IsReserved : (cs : List Call) (db : Db) → IsReserved db → IsReserved (run cs db)
unfolding run
run-IsReserved [] db h = h
run-IsReserved (c ∷ cs) db h = run-IsReserved cs (step c db) (step-IsReserved c db h)
