-- ===== src/Requests/UseCase/Verified.antt =====
-- No payment request becomes paid unless the verifier confirmed the transfer of that row.
use nim_near.Prelude.{
  ℕ, ap, sym, subst, ◌∙◌, List, returning-found, ◌>>=◌, ◌≡◌, refl, ◌⊎◌, inl, inr, Bool, true, false,
  not, ◌||◌, is_none, Option, none, some, arith, Survive, Survive-refl, Survive-update, returning,
  Bool-cases, Option-cases, Result, ok, err,
}
use nim_near.Store.{Db, Time, Duration, Request, RequestStatus, request_in_flight}
use nim_near.Nimiq.Verifier.{
  Transfer, Verdict, outcome, unreachable, confirmed, invalid, not_final, not_found,
}
use nim_near.Requests.Settle.{in_flight_id, claimable, claim_row, claim_verification}
use nim_near.Requests.Cases.{
  Survives, claim_verification-cases, set_verification_state-cases, expire_unresolved-cases,
}
use nim_near.Requests.UseCase.Setup.{RequestUseCase}
use nim_near.Requests.UseCase.Reconcile.{
  Run, Class, report, persist_verification_state, expire_stale, unresolved, settle, transfer_of,
  verify_claimed, claimed_or_not, attempt, reconcile_request, reconcile_with, has_payer,
  reconciliation_deadline_elapsed,
}

-- The same row, which becomes paid only if C holds of its id.
abbrev pub PaidOnlyIf : (ℕ → Type 0) → Request → Request → Type 0
PaidOnlyIf C r s =
    (s.id ≡ r.id) × (s.status ≡ RequestStatus.paid → (r.status ≡ RequestStatus.paid) ⊎ C s.id)

module _ (C : ℕ → Type 0) where
  stays : (r : Request) → PaidOnlyIf C r r
  stays r = (refl, λ h. inl h)

  follows : (r s t : Request) → PaidOnlyIf C r s → PaidOnlyIf C s t → PaidOnlyIf C r t
  follows r s t h k = (
    k.0 ∙ h.0,
    λ p. elim (k.1 p) [
      | inl q ↦ elim (h.1 q) [ inl o ↦ inl o | inr c ↦ inr (subst C (sym k.0) c) ]
      | inr c ↦ inr c
    ],
  )

  abbrev pub NewlyPaid : Db → Db → Type 0
  NewlyPaid old db = Survive (PaidOnlyIf C) old.requests db.requests

  survives :
      (old : Db) (p : Request → Bool) (f : Request → Request)
      → ((r : Request) → p r ≡ true → PaidOnlyIf C r (f r))
      → Survives (NewlyPaid old) p f
  survives old p f moves db h =
      Survive-update (PaidOnlyIf C) stays follows old.requests db.requests p f moves h

  report-db :
      (uc : RequestUseCase) (run : Run) (request row : Request) (class : Class)
      (r : Result Request × Db)
      → (report uc run request row class r).db ≡ r.1
  unfolding report
  report-db uc run request row class (ok u, db) = refl
  report-db uc run request row class (err e, db) = refl

  in_flight : (r : Request) (id : ℕ) → in_flight_id id r ≡ true → r.id ≡ id
  in_flight r id m = ground arith

  persist-NewlyPaid :
      (uc : RequestUseCase) (run : Run) (request row : Request) (status : RequestStatus)
      (class : Class) (old db : Db)
      → (status ≡ RequestStatus.paid → C row.id)
      → NewlyPaid old db
      → NewlyPaid old (persist_verification_state uc run request row status class db).db
  unfolding persist_verification_state
  persist-NewlyPaid uc run request row status class old db why h =
      rw (report-db uc run request row class) (
        set_verification_state-cases (NewlyPaid old) run.update_up row.id status run.update_time db
          (λ _.
            survives old _ _
              (λ r m. (refl, λ e. inr (subst C (sym (in_flight r row.id m)) (why e)))))
          h)

  expire_stale-NewlyPaid :
      (uc : RequestUseCase) (run : Run) (request row : Request) (old db : Db)
      → NewlyPaid old db
      → NewlyPaid old (expire_stale uc run request row db).db
  unfolding expire_stale
  expire_stale-NewlyPaid uc run request row old db h = rw (report-db uc run request row) (
      expire_unresolved-cases (NewlyPaid old) run.update_up row.id run.update_time
        uc.policy.deadline db (survives old _ _ (λ r _. (refl, λ e. ground arith))) h)

  unresolved-NewlyPaid :
      (uc : RequestUseCase) (run : Run) (request row : Request) (stale : Bool) (class : Class)
      (old db : Db)
      → NewlyPaid old db
      → NewlyPaid old (unresolved uc run request row stale class db).db
  unfolding unresolved
  unresolved-NewlyPaid uc run request row true class old db h =
      expire_stale-NewlyPaid uc run request row old db h
  unresolved-NewlyPaid uc run request row false class old db h = h

  settle-NewlyPaid :
      (uc : RequestUseCase) (run : Run) (request row : Request) (stale : Bool) (v : Verdict)
      (old db : Db)
      → (v ≡ outcome confirmed → C row.id)
      → NewlyPaid old db
      → NewlyPaid old (settle uc run request row stale v db).db
  unfolding settle
  settle-NewlyPaid uc run request row stale unreachable old db why h =
      unresolved-NewlyPaid uc run request row stale _ old db h
  settle-NewlyPaid uc run request row stale (outcome confirmed) old db why h =
      persist-NewlyPaid uc run request row RequestStatus.paid _ old db (λ _. why refl) h
  settle-NewlyPaid uc run request row stale (outcome invalid) old db why h =
      persist-NewlyPaid uc run request row RequestStatus.failed _ old db (λ e. cc) h
  settle-NewlyPaid uc run request row true (outcome not_final) old db why h =
      expire_stale-NewlyPaid uc run request row old db h
  settle-NewlyPaid uc run request row false (outcome not_final) old db why h =
      persist-NewlyPaid uc run request row RequestStatus.verifying _ old db (λ e. cc) h
  settle-NewlyPaid uc run request row stale (outcome not_found) old db why h =
      unresolved-NewlyPaid uc run request row stale _ old db h

  verify_claimed-NewlyPaid :
      (uc : RequestUseCase) (run : Run) (request row : Request) (stale : Bool)
      (verify : Transfer → Verdict) (old db : Db)
      → ((t : Transfer) → transfer_of row ≡ some t → verify t ≡ outcome confirmed → C row.id)
      → NewlyPaid old db
      → NewlyPaid old (verify_claimed uc run request row stale verify db).db
  unfolding verify_claimed
  verify_claimed-NewlyPaid uc run request row stale verify old db why h =
      elim (Option-cases (transfer_of row)) [
        | inl e ↦ rw (e, verify_claimed) h
        | inr (t, e) ↦
            rw (e, verify_claimed)
              (settle-NewlyPaid uc run request row stale (verify t) old db (why t e) h)
      ]

-- The verifier confirmed the transfer of a row that the attempt claimed: the row `id` of the
-- tables, in flight, as the claim left it.
pub record Confirmation (uc : RequestUseCase) (run : Run) (id : ℕ) (db : Db) : Type 0 where
  pub verify : Transfer → Verdict
  pub force : Bool
  pub claimed : Request
  pub transfer : Transfer
  pub configured : uc.verifier ≡ some verify
  pub is_claimed :
      returning
        (claimable id run.claim_time uc.policy.interval force)
        (claim_row run.claim_time uc.policy.interval)
        db.requests
      ≡ some claimed
  pub of_row : transfer_of claimed ≡ some transfer
  pub is_confirmed : verify transfer ≡ outcome confirmed

-- A claim that hands out a row hands out the row of its UPDATE.
claimed-row :
    (up : Bool) (id : ℕ) (now : Time) (retry claim : Duration) (force : Bool) (db db' : Db)
    (row : Request)
    → claim_verification up id now retry claim force db ≡ (ok (some row), db')
    → returning (claimable id now retry force) (claim_row now claim) db.requests ≡ some row
unfolding claim_verification ◌>>=◌
claimed-row true id now retry claim force db db' row e =
    cc (ap (λ (r : Result (Option Request) × Db). r.0) e)
claimed-row false id now retry claim force db db' row e =
    cc (ap (λ (r : Result (Option Request) × Db). r.0) e)

-- It is the row that was asked for.
claimed-id :
    (id : ℕ) (now : Time) (retry claim : Duration) (force : Bool) (rows : List Request)
    (row : Request)
    → returning (claimable id now retry force) (claim_row now claim) rows ≡ some row
    → row.id ≡ id
claimed-id id now retry claim force rows row e =
    let (r, matches, same) =
      returning-found (claimable id now retry force) (claim_row now claim) rows {b = row} e in
    sym (ap (λ (q : Request). q.id) same) ∙ ground (arith, matches)

-- The row is the one of the request, and the verifier confirmed it.
abbrev pub IsConfirmed : RequestUseCase → Run → ℕ → Db → ℕ → Type 0
IsConfirmed uc run id db key = (key ≡ id) × Confirmation uc run id db

module _ (uc : RequestUseCase) (run : Run) (request : Request) (db : Db) where
  abbrev C : ℕ → Type 0
  C = IsConfirmed uc run request.id db

  claimed_or_not-NewlyPaid :
      (verify : Transfer → Verdict) (stale : Bool) (r : Result (Option Request) × Db)
      → uc.verifier ≡ some verify
      → claim_verification run.claim_up request.id run.claim_time uc.policy.interval
          uc.policy.interval stale db
        ≡ r
      → NewlyPaid C db r.1
      → NewlyPaid C db (claimed_or_not uc run request stale verify r).db
  unfolding claimed_or_not
  claimed_or_not-NewlyPaid verify stale (err e, db') c q h = h
  claimed_or_not-NewlyPaid verify stale (ok none, db') c q h = h
  claimed_or_not-NewlyPaid verify stale (ok (some row), db') c q h =
      verify_claimed-NewlyPaid C uc run request row stale verify db db'
        (λ t o v. (
          claimed-id request.id run.claim_time uc.policy.interval uc.policy.interval stale
              db.requests row
              (claimed-row run.claim_up request.id run.claim_time uc.policy.interval
                uc.policy.interval stale db db' row q),
          record {
            verify = verify;
            force = stale;
            claimed = row;
            transfer = t;
            configured = c;
            is_claimed =
                claimed-row run.claim_up request.id run.claim_time uc.policy.interval
                  uc.policy.interval stale db db' row q;
            of_row = o;
            is_confirmed = v;
          },
        ))
        h

  attempt-NewlyPaid :
      (verify : Transfer → Verdict)
      → uc.verifier ≡ some verify
      → NewlyPaid C db (attempt uc run request verify db).db
  unfolding attempt
  attempt-NewlyPaid verify c =
      elim (Bool-cases
        (is_none request.transaction_hash || not (request_in_flight request.status))) [
          | inl e ↦ rw (e, attempt) (Survive-refl (PaidOnlyIf C) (stays C) (follows C) db.requests)
          | inr e ↦
              rw (e, attempt)
                (elim (Bool-cases (has_payer request)) [
                  | inl p ↦ rw p (
                      claimed_or_not-NewlyPaid verify
                        (reconciliation_deadline_elapsed uc.policy request run.claim_time) _ c refl
                        (claim_verification-cases (NewlyPaid C db) run.claim_up request.id
                          run.claim_time uc.policy.interval uc.policy.interval
                          (reconciliation_deadline_elapsed uc.policy request run.claim_time) db
                          (survives C db _ _ (λ r m. (refl, λ e. inl e)))
                          (Survive-refl (PaidOnlyIf C) (stays C) (follows C) db.requests)))
                  | inr p ↦ rw p (
                      persist-NewlyPaid C uc run request request RequestStatus.failed _ db db
                        (λ e. cc) (Survive-refl (PaidOnlyIf C) (stays C) (follows C) db.requests))
                ])
        ]

  reconcile_with-NewlyPaid :
      (o : Option (Transfer → Verdict))
      → uc.verifier ≡ o
      → NewlyPaid C db (reconcile_with o uc run request db).db
  unfolding reconcile_with
  reconcile_with-NewlyPaid none e = Survive-refl (PaidOnlyIf C) (stays C) (follows C) db.requests
  reconcile_with-NewlyPaid (some verify) e = attempt-NewlyPaid verify e

-- One verification attempt makes a row of payment_requests paid only if the verifier confirmed the
-- transfer of the row that the attempt claimed: the row with the id of the request, in flight and
-- not claimed by another attempt, with the hash, recipient, amount and payer that the table has for
-- it.
pub reconcile_request-NewlyPaid :
    (uc : RequestUseCase) (run : Run) (request : Request) (db : Db)
    → NewlyPaid (IsConfirmed uc run request.id db) db (reconcile_request uc run request db).db
unfolding reconcile_request
reconcile_request-NewlyPaid uc run request db =
    reconcile_with-NewlyPaid uc run request db uc.verifier refl
