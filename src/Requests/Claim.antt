-- ===== src/Requests/Claim.antt =====
-- request_repository.go: what the claim of a verification attempt guarantees.
use nim_near.Prelude.{
  ℕ, ◌+◌, ◌<◌, ◌≡◌, Bool, true, false, none, some, arith, inl, inr, Option-cases, find, IsKeyed,
  excluded-find, returning-none, ap, ok, ◌>>=◌,
}
use nim_near.Store.{Db, Time, Duration, Request}
use nim_near.Requests.Settle.{claimable, claim_row, claim_length, claim_verification}

-- While a claim lasts nobody else gets it: after an attempt has claimed a request at `now`, each
-- claim of the same id at a time before the end of the claim, `now` plus its length, forced or not,
-- answers that there is nothing to claim. The ids of the table are a key, and the database answers.
pub request_claim_excludes :
    (up : Bool) (id : ℕ) (now later : Time) (retry claim retry' claim' : Duration)
    (force force' : Bool) (db : Db) (row : Request)
    → IsKeyed (λ r. r.id) db.requests
    → (claim_verification up id now retry claim force db).0 ≡ ok (some row)
    → later < now + claim_length claim
    → (claim_verification true id later retry' claim' force'
        (claim_verification up id now retry claim force db).1).0
      ≡ ok none
unfolding claim_verification ◌>>=◌
request_claim_excludes false id now later retry claim retry' claim' force force' db row k e t = cc
request_claim_excludes true id now later retry claim retry' claim' force force' db row k e t =
    elim (Option-cases (find (claimable id now retry force) db.requests)) [
      | inl n ↦ ground (arith, n)
      | inr (b, n) ↦ ap ok (
          returning-none (claimable id later retry' force') (claim_row later claim') _ (
            excluded-find (λ r. r.id) id (claimable id now retry force)
              (claimable id later retry' force') (claim_row now claim) (λ r h. ground arith)
              (λ r h. ground arith) (λ r h. ground arith) db.requests {b = b} k n))
    ]
