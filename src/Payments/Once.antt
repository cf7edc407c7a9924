-- ===== src/Payments/Once.antt =====
-- One transaction on the chain pays for one thing.
use nim_near.Prelude.{ℕ, ◌≡◌, Option, some, List, Text, All, All-mono}
use nim_near.Store.{Db, Consumed, Domain, BelongsTo-unique}
use nim_near.Payments.Calls.{Call, run}
use nim_near.Payments.Reserved.{IsReserved, Backs, run-IsReserved}

-- What follows from two rows that carry the same hash.
abbrev pub IfShared : Option Text → Option Text → Type 0 → Type 0
IfShared o o' conclusion = (h : Text) → o ≡ some h → o' ≡ some h → conclusion

pub record PaysOnce (db : Db) : Type 0 where
  pub across :
      All
        (λ r. All (λ p. IfShared r.transaction_hash p.transaction_hash ⊥) db.purchases)
        db.requests
  pub among_requests :
      All
        (λ r. All (λ s. IfShared r.transaction_hash s.transaction_hash (r.id ≡ s.id)) db.requests)
        db.requests
  pub among_purchases :
      All
        (λ p. All (λ q. IfShared p.transaction_hash q.transaction_hash (p.id ≡ q.id)) db.purchases)
        db.purchases

shared_owner :
    (cs : List Consumed) (d d' : Domain) (i i' : ℕ) (o o' : Option Text)
    → Backs cs d i o
    → Backs cs d' i' o'
    → IfShared o o' ((d ≡ d') × (i ≡ i'))
shared_owner cs d d' i i' o o' b b' h p q = BelongsTo-unique h d d' i i' cs (b h p) (b' h q)

IsReserved-PaysOnce : (db : Db) → IsReserved db → PaysOnce db
IsReserved-PaysOnce db v = record {
  across =
      All-mono db.requests
        (λ r b.
          All-mono db.purchases
            (λ p c h x y. let e = shared_owner db.consumed _ _ r.id p.id _ _ b c h x y in cc (e.0))
            v.purchases)
        v.requests;
  among_requests =
      All-mono db.requests
        (λ r b.
          All-mono db.requests
            (λ s c h x y. (shared_owner db.consumed _ _ r.id s.id _ _ b c h x y).1) v.requests)
        v.requests;
  among_purchases =
      All-mono db.purchases
        (λ p b.
          All-mono db.purchases
            (λ q c h x y. (shared_owner db.consumed _ _ p.id q.id _ _ b c h x y).1) v.purchases)
        v.purchases;
}

-- If every hash in the two tables is reserved for its row to begin with, then after any calls of
-- both repositories no payment request has the same transaction hash as a purchase, and two payment
-- requests, or two purchases, with the same hash have the same id.
pub run-PaysOnce : (cs : List Call) (db : Db) → IsReserved db → PaysOnce (run cs db)
run-PaysOnce cs db v = IsReserved-PaysOnce (run cs db) (run-IsReserved cs db v)
