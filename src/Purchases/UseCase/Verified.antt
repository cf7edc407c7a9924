-- ===== src/Purchases/UseCase/Verified.antt =====
-- No purchase becomes confirmed unless the verifier confirmed the transfer of that row.
use nim_near.Prelude.{
  ℕ, ap, sym, subst, ◌∙◌, List, returning-found, ◌>>=◌, ◌≡◌, refl, ◌⊎◌, inl, inr, Bool, true, false,
  Option, none, some, arith, Survive, Survive-refl, Survive-update, returning, Bool-cases, Result,
  ok, err,
}
use nim_near.Store.{Db, Time, Duration, Purchase, PurchaseStatus, purchase_in_flight}
use nim_near.Nimiq.Verifier.{
  Verdict, outcome, unreachable, confirmed, invalid, not_final, not_found,
}
use nim_near.Purchases.Settle.{in_flight_owned, claimable, claim_row, claim_verification}
use nim_near.Purchases.Cases.{
  Survives, claim_verification-cases, set_verification_state-cases, expire_unresolved-cases,
}
use nim_near.Purchases.UseCase.Setup.{PurchaseUseCase}
use nim_near.Purchases.UseCase.Reconcile.{
  Run, Class, report, persist_verification_state, expire_stale, unresolved, settle, claimed_or_not,
  attempt, reconcile_purchase, reconcile_with, reconciliation_deadline_elapsed,
}

-- The same row, which becomes confirmed only if C holds of its id and its buyer.
abbrev pub ConfirmedOnlyIf : (ℕ → ℕ → Type 0) → Purchase → Purchase → Type 0
ConfirmedOnlyIf C p q =
    (q.id ≡ p.id)
    × (q.user_id ≡ p.user_id)
    × (q.status ≡ PurchaseStatus.confirmed
        → (p.status ≡ PurchaseStatus.confirmed) ⊎ C q.id q.user_id)

module _ (C : ℕ → ℕ → Type 0) where
  stays : (p : Purchase) → ConfirmedOnlyIf C p p
  stays p = (refl, refl, λ h. inl h)

  moved : (i j u w : ℕ) → i ≡ j → u ≡ w → C j w → C i u
  moved i j u w e f c = subst (λ k. C k u) (sym e) (subst (C j) (sym f) c)

  follows :
      (p q t : Purchase) → ConfirmedOnlyIf C p q → ConfirmedOnlyIf C q t → ConfirmedOnlyIf C p t
  follows p q t h k = (
    k.0 ∙ h.0,
    k.1 ∙ h.1,
    λ e. elim (k.2 e) [
      | inl s ↦ elim (h.2 s) [
        | inl o ↦ inl o
        | inr c ↦ inr (moved t.id q.id t.user_id q.user_id k.0 k.1 c)
      ]
      | inr c ↦ inr c
    ],
  )

  abbrev pub NewlyConfirmed : Db → Db → Type 0
  NewlyConfirmed old db = Survive (ConfirmedOnlyIf C) old.purchases db.purchases

  survives :
      (old : Db) (s : Purchase → Bool) (f : Purchase → Purchase)
      → ((p : Purchase) → s p ≡ true → ConfirmedOnlyIf C p (f p))
      → Survives (NewlyConfirmed old) s f
  survives old s f moves db h =
      Survive-update (ConfirmedOnlyIf C) stays follows old.purchases db.purchases s f moves h

  untouched-NewlyConfirmed : (db : Db) → NewlyConfirmed db db
  untouched-NewlyConfirmed db = Survive-refl (ConfirmedOnlyIf C) stays follows db.purchases

  report-db :
      (uc : PurchaseUseCase) (run : Run) (purchase row : Purchase) (class : Class)
      (r : Result Purchase × Db)
      → (report uc run purchase row class r).db ≡ r.1
  unfolding report
  report-db uc run purchase row class (ok u, db) = refl
  report-db uc run purchase row class (err e, db) = refl

  in_flight :
      (p : Purchase) (id user : ℕ)
      → in_flight_owned id user p ≡ true
      → (p.id ≡ id) × (p.user_id ≡ user)
  in_flight p id user m = (ground arith, ground arith)

  persist-NewlyConfirmed :
      (uc : PurchaseUseCase) (run : Run) (purchase row : Purchase) (status : PurchaseStatus)
      (class : Class) (old db : Db)
      → (status ≡ PurchaseStatus.confirmed → C row.id row.user_id)
      → NewlyConfirmed old db
      → NewlyConfirmed old (persist_verification_state uc run purchase row status class db).db
  unfolding persist_verification_state
  persist-NewlyConfirmed uc run purchase row status class old db why h =
      rw (report-db uc run purchase row class) (
        set_verification_state-cases (NewlyConfirmed old) run.update_up row.id row.user_id status
          run.update_time run.db_time db (λ _ _ _ _ k. k)
          (λ _. survives old _ _ (λ p m.
            let (i, u) = in_flight p row.id row.user_id m in
            (refl, refl, λ e. inr (moved p.id row.id p.user_id row.user_id i u (why e)))))
          h)

  expire_stale-NewlyConfirmed :
      (uc : PurchaseUseCase) (run : Run) (purchase row : Purchase) (old db : Db)
      → NewlyConfirmed old db
      → NewlyConfirmed old (expire_stale uc run purchase row db).db
  unfolding expire_stale
  expire_stale-NewlyConfirmed uc run purchase row old db h = rw (report-db uc run purchase row) (
      expire_unresolved-cases (NewlyConfirmed old) run.update_up row.id row.user_id run.update_time
        uc.policy.deadline db (survives old _ _ (λ p _. (refl, refl, λ e. ground arith))) h)

  unresolved-NewlyConfirmed :
      (uc : PurchaseUseCase) (run : Run) (purchase row : Purchase) (stale : Bool) (class : Class)
      (old db : Db)
      → NewlyConfirmed old db
      → NewlyConfirmed old (unresolved uc run purchase row stale class db).db
  unfolding unresolved
  unresolved-NewlyConfirmed uc run purchase row true class old db h =
      expire_stale-NewlyConfirmed uc run purchase row old db h
  unresolved-NewlyConfirmed uc run purchase row false class old db h = h

  settle-NewlyConfirmed :
      (uc : PurchaseUseCase) (run : Run) (purchase row : Purchase) (stale : Bool) (v : Verdict)
      (old db : Db)
      → (v ≡ outcome confirmed → C row.id row.user_id)
      → NewlyConfirmed old db
      → NewlyConfirmed old (settle uc run purchase row stale v db).db
  unfolding settle
  settle-NewlyConfirmed uc run purchase row stale unreachable old db why h =
      unresolved-NewlyConfirmed uc run purchase row stale _ old db h
  settle-NewlyConfirmed uc run purchase row stale (outcome confirmed) old db why h =
      persist-NewlyConfirmed uc run purchase row PurchaseStatus.confirmed _ old db (λ _. why refl) h
  settle-NewlyConfirmed uc run purchase row stale (outcome invalid) old db why h =
      persist-NewlyConfirmed uc run purchase row PurchaseStatus.failed _ old db (λ e. cc) h
  settle-NewlyConfirmed uc run purchase row true (outcome not_final) old db why h =
      expire_stale-NewlyConfirmed uc run purchase row old db h
  settle-NewlyConfirmed uc run purchase row false (outcome not_final) old db why h =
      persist-NewlyConfirmed uc run purchase row PurchaseStatus.verifying _ old db (λ e. cc) h
  settle-NewlyConfirmed uc run purchase row stale (outcome not_found) old db why h =
      unresolved-NewlyConfirmed uc run purchase row stale _ old db h

-- The verifier confirmed the row that the attempt claimed: the row `id` of this user, in flight, as
-- the claim left it.
pub record Confirmation (uc : PurchaseUseCase) (run : Run) (id user : ℕ) (db : Db) : Type 0 where
  pub verify : Purchase → Verdict
  pub force : Bool
  pub claimed : Purchase
  pub configured : uc.verifier ≡ some verify
  pub is_claimed :
      returning
        (claimable id user run.claim_time uc.policy.interval force)
        (claim_row run.claim_time uc.policy.interval)
        db.purchases
      ≡ some claimed
  pub is_confirmed : verify claimed ≡ outcome confirmed

-- A claim that hands out a row hands out the row of its UPDATE.
claimed-row :
    (up : Bool) (id user : ℕ) (now : Time) (retry claim : Duration) (force : Bool) (db db' : Db)
    (row : Purchase)
    → claim_verification up id user now retry claim force db ≡ (ok (some row), db')
    → returning (claimable id user now retry force) (claim_row now claim) db.purchases ≡ some row
unfolding claim_verification ◌>>=◌
claimed-row true id user now retry claim force db db' row e =
    cc (ap (λ (r : Result (Option Purchase) × Db). r.0) e)
claimed-row false id user now retry claim force db db' row e =
    cc (ap (λ (r : Result (Option Purchase) × Db). r.0) e)

-- It is the row that was asked for.
claimed-owner :
    (id user : ℕ) (now : Time) (retry claim : Duration) (force : Bool) (rows : List Purchase)
    (row : Purchase)
    → returning (claimable id user now retry force) (claim_row now claim) rows ≡ some row
    → (row.id ≡ id) × (row.user_id ≡ user)
claimed-owner id user now retry claim force rows row e =
    let (r, matches, same) =
      returning-found (claimable id user now retry force) (claim_row now claim) rows {b = row} e in
    (
      sym (ap (λ (q : Purchase). q.id) same) ∙ ground (arith, matches),
      sym (ap (λ (q : Purchase). q.user_id) same) ∙ ground (arith, matches),
    )

-- The row is the one of the purchase and its buyer, and the verifier confirmed it.
abbrev pub IsConfirmed : PurchaseUseCase → Run → ℕ → ℕ → Db → ℕ → ℕ → Type 0
IsConfirmed uc run id user db key owner =
    (key ≡ id) × (owner ≡ user) × Confirmation uc run id user db

module _ (uc : PurchaseUseCase) (run : Run) (purchase : Purchase) (db : Db) where
  abbrev C : ℕ → ℕ → Type 0
  C = IsConfirmed uc run purchase.id purchase.user_id db

  claimed_or_not-NewlyConfirmed :
      (verify : Purchase → Verdict) (stale : Bool) (r : Result (Option Purchase) × Db)
      → uc.verifier ≡ some verify
      → claim_verification run.claim_up purchase.id purchase.user_id run.claim_time
          uc.policy.interval uc.policy.interval stale db
        ≡ r
      → NewlyConfirmed C db r.1
      → NewlyConfirmed C db (claimed_or_not uc run purchase stale verify r).db
  unfolding claimed_or_not
  claimed_or_not-NewlyConfirmed verify stale (err e, db') c q h = h
  claimed_or_not-NewlyConfirmed verify stale (ok none, db') c q h = h
  claimed_or_not-NewlyConfirmed verify stale (ok (some row), db') c q h =
      settle-NewlyConfirmed C uc run purchase row stale (verify row) db db'
        (λ v.
          let (i, u) =
            claimed-owner purchase.id purchase.user_id run.claim_time uc.policy.interval
              uc.policy.interval stale db.purchases row
              (claimed-row run.claim_up purchase.id purchase.user_id run.claim_time
                uc.policy.interval uc.policy.interval stale db db' row q) in
          (
            i,
            u,
            record {
              verify = verify;
              force = stale;
              claimed = row;
              configured = c;
              is_claimed =
                  claimed-row run.claim_up purchase.id purchase.user_id run.claim_time
                    uc.policy.interval uc.policy.interval stale db db' row q;
              is_confirmed = v;
            },
          ))
        h

  attempt-NewlyConfirmed :
      (verify : Purchase → Verdict)
      → uc.verifier ≡ some verify
      → NewlyConfirmed C db (attempt uc run purchase verify db).db
  unfolding attempt
  attempt-NewlyConfirmed verify c = elim (Bool-cases (purchase_in_flight purchase.status)) [
    | inl p ↦
        rw (p, attempt)
          (claimed_or_not-NewlyConfirmed verify
            (reconciliation_deadline_elapsed uc.policy purchase run.claim_time) _ c refl
            (claim_verification-cases (NewlyConfirmed C db) run.claim_up purchase.id
              purchase.user_id run.claim_time uc.policy.interval uc.policy.interval
              (reconciliation_deadline_elapsed uc.policy purchase run.claim_time) db
              (survives C db _ _ (λ r m. (refl, refl, λ e. inl e)))
              (untouched-NewlyConfirmed C db)))
    | inr p ↦ rw (p, attempt) (untouched-NewlyConfirmed C db)
  ]

  reconcile_with-NewlyConfirmed :
      (o : Option (Purchase → Verdict))
      → uc.verifier ≡ o
      → NewlyConfirmed C db (reconcile_with o uc run purchase db).db
  unfolding reconcile_with
  reconcile_with-NewlyConfirmed none e = untouched-NewlyConfirmed C db
  reconcile_with-NewlyConfirmed (some verify) e = attempt-NewlyConfirmed verify e

-- One verification attempt makes a row of event_purchases confirmed only if the verifier confirmed
-- the row that the attempt claimed: the row with the id and the buyer of the purchase, in flight
-- and not claimed by another attempt, with the hash, amount and buyer that the table has for it.
pub reconcile_purchase-NewlyConfirmed :
    (uc : PurchaseUseCase) (run : Run) (purchase : Purchase) (db : Db)
    → NewlyConfirmed
        (IsConfirmed uc run purchase.id purchase.user_id db)
        db
        (reconcile_purchase uc run purchase db).db
unfolding reconcile_purchase
reconcile_purchase-NewlyConfirmed uc run purchase db =
    reconcile_with-NewlyConfirmed uc run purchase db uc.verifier refl
