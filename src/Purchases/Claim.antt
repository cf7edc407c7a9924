-- ===== src/Purchases/Claim.antt =====
-- purchase_repository.go: what the claim of a verification attempt guarantees.
use nim_near.Prelude.{
  ℕ, ◌+◌, ◌<◌, ◌≡◌, Bool, true, false, none, some, arith, inl, inr, Option-cases, find, IsKeyed,
  excluded-find, returning-none, ap, ok, ◌>>=◌,
}
use nim_near.Store.{Db, Time, Duration, Purchase}
use nim_near.Purchases.Settle.{claimable, claim_row, claim_length, claim_verification}

-- While a claim lasts nobody else gets it: after an attempt has claimed a purchase at `now`, each
-- claim of the same id and buyer at a time before the end of the claim, `now` plus its length,
-- forced or not, answers that there is nothing to claim. The ids of the table are a key, and the
-- database answers.
pub purchase_claim_excludes :
    (up : Bool) (id user : ℕ) (now later : Time) (retry claim retry' claim' : Duration)
    (force force' : Bool) (db : Db) (row : Purchase)
    → IsKeyed (λ p. p.id) db.purchases
    → (claim_verification up id user now retry claim force db).0 ≡ ok (some row)
    → later < now + claim_length claim
    → (claim_verification true id user later retry' claim' force'
        (claim_verification up id user now retry claim force db).1).0
      ≡ ok none
unfolding claim_verification ◌>>=◌
purchase_claim_excludes false id user now later retry claim retry' claim' force force' db row k e
      t =
    cc
purchase_claim_excludes true id user now later retry claim retry' claim' force force' db row k e t =
    elim (Option-cases (find (claimable id user now retry force) db.purchases)) [
      | inl n ↦ ground (arith, n)
      | inr (b, n) ↦ ap ok (
          returning-none (claimable id user later retry' force') (claim_row later claim') _ (
            excluded-find (λ p. p.id) id (claimable id user now retry force)
              (claimable id user later retry' force') (claim_row now claim) (λ p h. ground arith)
              (λ p h. ground arith) (λ p h. ground arith) db.purchases {b = b} k n))
    ]
