-- ===== src/Requests/Candidates.antt =====
-- request_repository.go: the batch of the reconciliation worker.
use nim_near.Prelude.{
  ℕ, zero, suc, ◌*◌, ◌≤◌, ◌≡◌, Bool, true, false, List, [], ◌∷◌, arith, length, take, select,
  sort_by, insert_by, Bool-cases, inl, inr, ◌==◌, require, plain, internal, All, All-mono, subst,
  Result, ok, err, ◌>>=◌,
}
use nim_near.Store.{second, Db, Time, Request}
use nim_near.UseCases.{Policy}
use nim_near.Requests.UseCase.Reconcile.{reconciliation_deadline_elapsed}
use nim_near.Requests.Settle.{
  fallback_length, claimable, is_candidate, deadline_order, list_reconciliation_candidates,
}

take-length : {A : Type 0} (n : ℕ) (xs : List A) → length (take n xs) ≤ n
unfolding take
take-length zero xs = ground arith
take-length (suc n) [] = ground arith
take-length (suc n) (x ∷ xs) = ground (arith, take-length n xs)

module _ {A : Type 0} (P : A → Type 0) where
  take-All : (n : ℕ) (xs : List A) → All P xs → All P (take n xs)
  unfolding take
  take-All zero xs h = tt
  take-All (suc n) [] h = tt
  take-All (suc n) (x ∷ xs) h = (h.0, take-All n xs h.1)

  insert_by-All :
      (before : A → A → Bool) (x : A) (xs : List A) → P x → All P xs → All P (insert_by before x xs)
  unfolding insert_by
  insert_by-All before x [] p h = (p, tt)
  insert_by-All before x (y ∷ ys) p h = ground (arith, p, h.0, h.1, insert_by-All before x ys p h.1)

  sort_by-All : (before : A → A → Bool) (xs : List A) → All P xs → All P (sort_by before xs)
  unfolding sort_by
  sort_by-All before [] h = tt
  sort_by-All before (x ∷ xs) h =
      insert_by-All before x (sort_by before xs) (h.0) (sort_by-All before xs h.1)

select-All : {A : Type 0} (p : A → Bool) (xs : List A) → All (λ x. p x ≡ true) (select p xs)
unfolding select
select-All p [] = tt
select-All p (x ∷ xs) = ground (arith, select-All p xs)

fallback_length-second : (s : ℕ) → fallback_length (suc s * second) ≡ suc s * second
fallback_length-second s = ground arith

-- An attempt at this time may claim the row, with the force that it computes for it.
abbrev pub MayBeClaimed : Policy → Time → Request → Type 0
MayBeClaimed policy now r =
    claimable r.id now policy.interval (reconciliation_deadline_elapsed policy r now) r ≡ true

module _ (policy : Policy) (now : Time) (s : ℕ) (whole : policy.deadline ≡ suc s * second) where
  deadline_is_whole : fallback_length policy.deadline ≡ policy.deadline
  deadline_is_whole = rw whole (fallback_length-second s)

  is_candidate-MayBeClaimed :
      (r : Request)
      → is_candidate now policy.interval policy.deadline r ≡ true
      → MayBeClaimed policy now r
  unfolding reconciliation_deadline_elapsed
  is_candidate-MayBeClaimed r h = ground (arith, deadline_is_whole)

abbrev IsBatch : Policy → Time → ℕ → Result (List Request) → Type 0
IsBatch policy now limit (ok rows) = (length rows ≤ limit) × All (MayBeClaimed policy now) rows
IsBatch policy now limit (err e) = Unit

list-IsBatch :
    (up : Bool) (policy : Policy) (now : Time) (limit s : ℕ) (db : Db)
    → policy.deadline ≡ suc s * second
    → IsBatch policy now limit
        (list_reconciliation_candidates up now policy.interval policy.deadline limit db)
unfolding list_reconciliation_candidates ◌>>=◌
list-IsBatch up policy now limit s db whole = elim (Bool-cases (limit == 0)) [
  | inl e ↦ rw (e, list_reconciliation_candidates) (omega arith, tt)
  | inr e ↦ rw (e, list_reconciliation_candidates) (read up)
]
  where
    batch : List Request
    batch = take limit (
        sort_by (deadline_order policy.deadline)
          (select (is_candidate now policy.interval policy.deadline) db.requests))

    read : (b : Bool) → IsBatch policy now limit (require b (plain internal) >>= (λ _. ok batch))
    read false = tt
    read true = (
      take-length limit _,
      take-All _ limit _ (
          sort_by-All _ (deadline_order policy.deadline) _ (
            All-mono _ (is_candidate-MayBeClaimed policy now s whole)
              (select-All (is_candidate now policy.interval policy.deadline) db.requests))),
    )

-- In a pass of the worker the listing gives at most the limit of rows, and each is one that an
-- attempt at the same time may claim: it is in flight, no claim on it lasts, and its retry is due
-- or its deadline elapsed. The deadline of the policy is a positive number of whole seconds.
pub candidates-MayBeClaimed :
    (up : Bool) (policy : Policy) (now : Time) (limit s : ℕ) (db : Db) (rows : List Request)
    → policy.deadline ≡ suc s * second
    → list_reconciliation_candidates up now policy.interval policy.deadline limit db ≡ ok rows
    → (length rows ≤ limit) × All (MayBeClaimed policy now) rows
unfolding list_reconciliation_candidates ◌>>=◌
candidates-MayBeClaimed up policy now limit s db rows whole e =
    subst (IsBatch policy now limit) e (list-IsBatch up policy now limit s db whole)
