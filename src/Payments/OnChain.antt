-- ===== src/Payments/OnChain.antt =====
-- With the verifier of nimiq/rpc, what is marked as paid is paid on the chain.
use nim_near.Prelude.{
  ℕ, ap, sym, none, subst, All-Some, Survive-mono, ◌∙◌, pos, ◌<◌, ◌^◌, ◌≡◌, inl, inr, Bool, true,
  Option, some, arith, Text, All, Some, Some-mono, returning-Some, Option-cases,
}
use nim_near.Store.{Db, Time, Duration, Request, request_in_flight, Purchase, purchase_in_flight}
use nim_near.Nimiq.Verifier.{
  Transfer, Verifier, Verdict, outcome, unreachable, confirmed, verify_transfer, verify_purchase,
}
use nim_near.Nimiq.Confirmed.{IsPaid, verify_transfer_confirmed_iff}
use nim_near.Requests.Settle as RequestSettle
use nim_near.Purchases.Settle as PurchaseSettle
use nim_near.Purchases.UseCase.Setup.{PurchaseUseCase}
use nim_near.Purchases.UseCase.Reconcile.{reconcile_purchase}
use nim_near.Purchases.UseCase.Reconcile as BoughtRun
use nim_near.Purchases.UseCase.Verified as Bought
use nim_near.Requests.UseCase.Setup.{RequestUseCase}
use nim_near.Requests.UseCase.Reconcile.{Run, transfer_of, reconcile_request}
use nim_near.Requests.UseCase.Verified.{NewlyPaid, Confirmation, reconcile_request-NewlyPaid}

abbrev pub transfer_to : Text → ℕ → Text → ℕ → Transfer
transfer_to recipient amount h payer = record {
  transaction_hash = h;
  recipient = recipient;
  amount_lunas = pos amount;
  payer_user_id = payer;
}

unfoldable verdict_at : {A : Type 0} → A → Option (A → Verdict) → Verdict
verdict_at a none = unreachable
verdict_at a (some f) = f a

same_verdict :
    {A : Type 0} (o : Option (A → Verdict)) (f g : A → Verdict)
    → o ≡ some f
    → o ≡ some g
    → (a : A) → f a ≡ g a
unfolding verdict_at
same_verdict o f g e e' a = ap (verdict_at a) (sym e ∙ e')

-- A row of the table with this id, in flight, whose transfer the chain has: exactly its amount,
-- from an address that its payer has verified, to its recipient.
pub record IsRequestPaid (v : Verifier) (id : ℕ) (r : Request) : Type 0 where
  pub right_id : r.id ≡ id
  pub in_flight : request_in_flight r.status ≡ true
  pub hash : Text
  pub payer : ℕ
  pub has_hash : r.transaction_hash ≡ some hash
  pub has_payer : r.payer_user_id ≡ some payer
  pub paid : IsPaid v (transfer_to r.recipient_address r.amount_lunas hash payer)

-- The columns of type BIGINT hold an int64.
abbrev pub FitsRequest : Request → Type 0
FitsRequest r = r.amount_lunas < 2 ^ 63

transfer_of-fields :
    (r : Request) (t : Transfer)
    → transfer_of r ≡ some t
    → (h : Text) × (p : ℕ) × (r.transaction_hash ≡ some h)
      × (r.payer_user_id ≡ some p)
      × (t ≡ transfer_to r.recipient_address r.amount_lunas h p)
transfer_of-fields r t e = elim (Option-cases r.transaction_hash) [
  | inl n ↦ ground (arith, n)
  | inr (h, n) ↦ elim (Option-cases r.payer_user_id) [
    | inl m ↦ ground (arith, n, m)
    | inr (p, m) ↦ (h, p, n, m, ground (arith, n, m))
  ]
]

module _ (v : Verifier) (uc : RequestUseCase) (run : Run) (id : ℕ) (db : Db)
    (fit : All FitsRequest db.requests) (configured : uc.verifier ≡ some (verify_transfer v)) where
  claimed-IsRequestPaid :
      (now : Time) (interval : Duration) (force : Bool) (r claimed : Request) (t : Transfer)
      → FitsRequest r
      → RequestSettle.claimable id now interval force r ≡ true
      → RequestSettle.claim_row now interval r ≡ claimed
      → transfer_of claimed ≡ some t
      → verify_transfer v t ≡ outcome confirmed
      → IsRequestPaid v id r
  claimed-IsRequestPaid now interval force r claimed t fits c e o s =
      let (h, p, q, k, same) = transfer_of-fields r t (ap transfer_of e ∙ o) in
      record {
        right_id = ground arith;
        in_flight = ground arith;
        hash = h;
        payer = p;
        has_hash = q;
        has_payer = k;
        paid =
            (verify_transfer_confirmed_iff v (transfer_to r.recipient_address r.amount_lunas h p)
                fits).0
              (subst (λ u. verify_transfer v u ≡ outcome confirmed) same s);
      }

  Confirmation-IsRequestPaid : Confirmation uc run id db → Some (IsRequestPaid v id) db.requests
  Confirmation-IsRequestPaid c =
      Some-mono db.requests
        (λ r k.
          claimed-IsRequestPaid run.claim_time uc.policy.interval c.force r c.claimed c.transfer
            (k.0) (k.1.0) (k.1.1) c.of_row
            (same_verdict uc.verifier _ _ configured c.configured c.transfer ∙ c.is_confirmed))
        (All-Some FitsRequest _ db.requests fit (
          returning-Some (RequestSettle.claimable id run.claim_time uc.policy.interval c.force)
            (RequestSettle.claim_row run.claim_time uc.policy.interval) db.requests c.is_claimed))

-- When the verifier of the use case is the one of the Nimiq node and the amounts of the table fit
-- an int64: one verification attempt keeps every row of payment_requests, and makes one paid only if
-- it is the row of the request, which was in flight, and the node reports the payment of it, a final
-- executed transfer of exactly its amount to its recipient, from an address that its payer has
-- verified. The row that becomes paid has the id of the request.
pub reconcile_request-IsRequestPaid :
    (v : Verifier) (uc : RequestUseCase) (run : Run) (request : Request) (db : Db)
    → All FitsRequest db.requests
    → uc.verifier ≡ some (verify_transfer v)
    → NewlyPaid
        (λ id. (id ≡ request.id) × Some (IsRequestPaid v id) db.requests)
        db
        (reconcile_request uc run request db).db
reconcile_request-IsRequestPaid v uc run request db fit configured =
    Survive-mono _ _
      (λ r s h. (
        h.0,
        λ e. elim (h.1 e) [
          | inl q ↦ inl q
          | inr c ↦ inr (
            c.0,
            subst (λ id. Some (IsRequestPaid v id) db.requests) (sym c.0)
                (Confirmation-IsRequestPaid v uc run request.id db fit configured c.1),
          )
        ],
      ))
      db.requests _ (reconcile_request-NewlyPaid uc run request db)

-- A purchase of this buyer with this id, in flight, whose transfer the chain has: exactly its
-- amount, from an address that the buyer has verified, to the merchant.
pub record IsPurchasePaid (v : Verifier) (id user : ℕ) (p : Purchase) : Type 0 where
  pub right_id : p.id ≡ id
  pub right_user : p.user_id ≡ user
  pub in_flight : purchase_in_flight p.status ≡ true
  pub hash : Text
  pub has_hash : p.transaction_hash ≡ some hash
  pub paid : IsPaid v (transfer_to v.merchant p.amount_lunas hash p.user_id)

abbrev pub FitsPurchase : Purchase → Type 0
FitsPurchase p = p.amount_lunas < 2 ^ 63

-- Verify settles a purchase only with the transfer of its hash.
verify_purchase-hash :
    (v : Verifier) (p : Purchase)
    → verify_purchase v p ≡ outcome confirmed
    → (h : Text) × (p.transaction_hash ≡ some h)
      × (verify_transfer v (transfer_to v.merchant p.amount_lunas h p.user_id) ≡ outcome confirmed)
unfolding verify_purchase
verify_purchase-hash v p s = elim (Option-cases p.transaction_hash) [
  | inl n ↦ ground (arith, n)
  | inr (h, n) ↦ (h, n, ground (arith, n))
]

module _ (v : Verifier) (uc : PurchaseUseCase) (run : BoughtRun.Run) (id user : ℕ) (db : Db)
    (fit : All FitsPurchase db.purchases)
    (configured : uc.verifier ≡ some (verify_purchase v)) where
  claimed-IsPurchasePaid :
      (now : Time) (interval : Duration) (force : Bool) (p claimed : Purchase)
      → FitsPurchase p
      → PurchaseSettle.claimable id user now interval force p ≡ true
      → PurchaseSettle.claim_row now interval p ≡ claimed
      → verify_purchase v claimed ≡ outcome confirmed
      → IsPurchasePaid v id user p
  claimed-IsPurchasePaid now interval force p claimed fits c e s =
      let (h, q, paid) =
        verify_purchase-hash v (PurchaseSettle.claim_row now interval p)
          (ap (verify_purchase v) e ∙ s) in
      record {
        right_id = ground arith;
        right_user = ground arith;
        in_flight = ground arith;
        hash = h;
        has_hash = q;
        paid =
            (verify_transfer_confirmed_iff v (transfer_to v.merchant p.amount_lunas h p.user_id)
                fits).0
              paid;
      }

  Confirmation-IsPurchasePaid :
      Bought.Confirmation uc run id user db → Some (IsPurchasePaid v id user) db.purchases
  Confirmation-IsPurchasePaid c =
      Some-mono db.purchases
        (λ p k.
          claimed-IsPurchasePaid run.claim_time uc.policy.interval c.force p c.claimed (k.0) (k.1.0)
            (k.1.1)
            (same_verdict uc.verifier _ _ configured c.configured c.claimed ∙ c.is_confirmed))
        (All-Some FitsPurchase _ db.purchases fit (
          returning-Some
            (PurchaseSettle.claimable id user run.claim_time uc.policy.interval c.force)
            (PurchaseSettle.claim_row run.claim_time uc.policy.interval) db.purchases c.is_claimed))

-- When the verifier of the use case is the one of the Nimiq node and the amounts of the table fit
-- an int64: one verification attempt keeps every row of event_purchases, and makes one confirmed
-- only if it is the row of the purchase, with its id and buyer, which was in flight, and the node
-- reports the payment of it, a final executed transfer of exactly its amount to the merchant, from
-- an address that its buyer has verified.
pub reconcile_purchase-IsPurchasePaid :
    (v : Verifier) (uc : PurchaseUseCase) (run : BoughtRun.Run) (purchase : Purchase) (db : Db)
    → All FitsPurchase db.purchases
    → uc.verifier ≡ some (verify_purchase v)
    → Bought.NewlyConfirmed
        (λ id user.
          (id ≡ purchase.id)
          × (user ≡ purchase.user_id)
          × Some (IsPurchasePaid v id user) db.purchases)
        db
        (reconcile_purchase uc run purchase db).db
reconcile_purchase-IsPurchasePaid v uc run purchase db fit configured =
    Survive-mono _ _
      (λ p q h. (
        h.0,
        h.1,
        λ e. elim (h.2 e) [
          | inl s ↦ inl s
          | inr c ↦ inr (
            c.0,
            c.1,
            paid_row q.id q.user_id purchase.id purchase.user_id c.0 c.1 (
                Confirmation-IsPurchasePaid v uc run purchase.id purchase.user_id db fit configured
                  c.2),
          )
        ],
      ))
      db.purchases _ (Bought.reconcile_purchase-NewlyConfirmed uc run purchase db)
  where
    paid_row :
        (i u j w : ℕ)
        → i ≡ j
        → u ≡ w
        → Some (IsPurchasePaid v j w) db.purchases
        → Some (IsPurchasePaid v i u) db.purchases
    paid_row i u j w e f h =
        subst (λ k. Some (IsPurchasePaid v k u) db.purchases) (sym e)
          (subst (λ k. Some (IsPurchasePaid v j k) db.purchases) (sym f) h)
