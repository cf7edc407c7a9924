-- ===== src/Purchases/UseCase/Commands.antt =====
-- purchase.go: the operations of PurchaseUseCase. The mapping of the row to a response is not
-- modelled: an operation answers with the row.
use nim_near.Prelude.{
  ℕ, ◌+◌, Bool, not, Option, none, some, List, [], ◌++◌, Text, ◌==◌, if◌then◌else◌, Result, ok, err,
  Error, plain, coded, bad_request, unauthorized, validation, not_implemented, conflict,
  payment_not_configured, invalid_transaction_hash, purchase_not_recoverable, purchase_not_pending,
  require, ◌>>=◌, ◌>>◌,
}
use nim_near.Store.{
  Db, Answers, Time, Purchase, PurchaseStatus, purchase_is_pending, purchase_in_flight,
  purchase_status_eq,
}
use nim_near.Nimiq.Verifier as Verifier
use nim_near.Nimiq.Verifier.{Verdict, outcome}
use nim_near.Realtime.{StatusChanged}
use nim_near.UseCases.{is_transaction_hash, normalize_hash, require_identity}
use nim_near.Purchases.Rows.{get_owned, get_active_for_event}
use nim_near.Purchases.Create as Repo
use nim_near.Purchases.Submit as RepoSubmit
use nim_near.Purchases.Recover.{confirm_expired_recovery, is_recoverable}
use nim_near.Purchases.UseCase.Setup.{PurchaseUseCase, payments_configured, publish_status}
use nim_near.Purchases.UseCase.Reconcile.{Run, reconcile_purchase}

-- What an operation answers, the tables that it leaves, and the events that it published.
pub record Response : Type 0 where
  pub result : Result Purchase
  pub db : Db
  pub events : List StatusChanged

abbrev pub refuse : Error → Db → Response
refuse e db = record { result = err e; db = db; events = [] }

abbrev pub respond : Result Purchase × Db → Response
respond (result, db) = record { result = result; db = db; events = [] }

-- validateIDs and validatePurchaseIdentity, which differ only in their message: uuid.Nil is 0.
abbrev pub validate_ids : ℕ → ℕ → Result (Unit {0})
validate_ids id user =
    require (not (id == 0)) (plain bad_request) >> require (not (user == 0)) (plain unauthorized)

-- verifyAndPersist
abbrev pub verified : PurchaseUseCase → Run → List StatusChanged → Purchase → Db → Response
verified uc run sent p db =
    let a = reconcile_purchase uc run p db in
    record { result = ok a.row; db = a.db; events = sent ++ a.events }

-- The checks of Create before it reaches the repository, in their order.
unfoldable pub check_creation : PurchaseUseCase → ℕ → ℕ → Result (Unit {0})
check_creation uc event user = do
  validate_ids event user
  require (payments_configured uc) (coded not_implemented payment_not_configured)
  require_identity uc.identities user

unfoldable pub create : PurchaseUseCase → Answers → Time → ℕ → ℕ → ℕ → Db → Response
create uc up now id event user db = elim (check_creation uc event user) [
  | err e ↦ refuse e db
  | ok _ ↦ respond (Repo.create up id event user now uc.hold_duration db)
]

unfoldable pub read_active : PurchaseUseCase → Run → Result Purchase × Db → Response
read_active uc run (err e, db) = refuse e db
read_active uc run (ok p, db) = verified uc run [] p db

-- GetActiveForEvent: `db_now` is NOW() of the repository.
unfoldable pub get_active : PurchaseUseCase → Answers → Run → Time → ℕ → ℕ → Db → Response
get_active uc up run db_now event user db = elim (validate_ids event user) [
  | err e ↦ refuse e db
  | ok _ ↦ read_active uc run (get_active_for_event up event user db_now db)
]

unfoldable pub read_owned : PurchaseUseCase → Run → Db → Result Purchase → Response
read_owned uc run db (err e) = refuse e db
read_owned uc run db (ok p) =
    if purchase_in_flight p.status
    then verified uc run [] p db
    else record { result = ok p; db = db; events = [] }

-- GetOwned, by getOwnedAndMaybeVerify.
unfoldable pub get_purchase : PurchaseUseCase → Bool → Run → ℕ → ℕ → Db → Response
get_purchase uc up run id user db = elim (validate_ids id user) [
  | err e ↦ refuse e db
  | ok _ ↦ read_owned uc run db (get_owned up id user db)
]

pub record PaymentInstructions : Type 0 where
  pub purchase_id : ℕ
  pub recipient : Text
  pub amount_lunas : ℕ
  pub network : Text
  pub capacity_hold_expires_at : Option Time

-- PaymentInstructions. The amount is not printed here.
unfoldable pub payment_instructions :
    PurchaseUseCase → Bool → ℕ → ℕ → Db → Result PaymentInstructions
payment_instructions uc up id user db = do
  validate_ids id user
  require (payments_configured uc) (coded not_implemented payment_not_configured)
  p ← get_owned up id user db
  require (purchase_is_pending p.status) (coded conflict purchase_not_pending)
  ok (record {
    purchase_id = p.id;
    recipient = uc.recipient;
    amount_lunas = p.amount_lunas;
    network = uc.network;
    capacity_hold_expires_at = p.capacity_hold_expires_at;
  })

-- The checks of SubmitTransaction before it reaches the repository, in their order.
unfoldable pub check_submission : PurchaseUseCase → ℕ → ℕ → Text → Result (Unit {0})
check_submission uc id user hash = do
  validate_ids id user
  require (is_transaction_hash (normalize_hash hash)) (coded validation invalid_transaction_hash)
  require (payments_configured uc) (coded not_implemented payment_not_configured)
  require_identity uc.identities user

-- After the repository: publish a submission, and try to verify it at once.
unfoldable pub after_submit : PurchaseUseCase → Run → Time → Result Purchase × Db → Response
after_submit uc run now (err e, db) = refuse e db
after_submit uc run now (ok p, db) =
    verified uc run
      (if purchase_status_eq p.status PurchaseStatus.submitted
        then publish_status uc.events now p
        else [])
      p db

-- SubmitTransaction: `now` and `publish_time` are readings of the clock.
unfoldable pub submit_transaction :
    PurchaseUseCase → Answers → Run → Time → Time → ℕ → ℕ → Text → Db → Response
submit_transaction uc up run now publish_time id user hash db =
    elim (check_submission uc id user hash) [
      | err e ↦ refuse e db
      | ok _ ↦ after_submit uc run publish_time (
          RepoSubmit.submit_transaction up id user (normalize_hash hash) now
            (now + uc.policy.deadline) db)
    ]

unfoldable pub after_recovery : PurchaseUseCase → Time → Purchase → Result Purchase × Db → Response
after_recovery uc now before (err e, db) = refuse e db
after_recovery uc now before (ok p, db) = record {
  result = ok p;
  db = db;
  events = if purchase_status_eq p.status before.status then [] else publish_status uc.events now p;
}

-- Only a confirmed transfer reaches ConfirmExpiredRecovery. `db_now` is NOW() of its attendee
-- count.
unfoldable pub recover_verified :
    PurchaseUseCase → Answers → Time → Time → Purchase → Verdict → Db → Response
recover_verified uc up now db_now p (outcome Verifier.confirmed) db =
    after_recovery uc now p (confirm_expired_recovery up p.id p.user_id now db_now db)
recover_verified uc up now db_now p _ db = record { result = ok p; db = db; events = [] }

unfoldable pub recover_row :
    PurchaseUseCase → Answers → Time → Time → (Purchase → Verdict) → Purchase → Db → Response
recover_row uc up now db_now verify p db =
    if purchase_status_eq p.status PurchaseStatus.confirmed
    then record { result = ok p; db = db; events = [] }
    else if is_recoverable p
    then recover_verified uc up now db_now p (verify p) db
    else refuse (coded conflict purchase_not_recoverable) db

unfoldable pub recover_read :
    PurchaseUseCase → Answers → Time → Time → (Purchase → Verdict) → Db → Result Purchase → Response
recover_read uc up now db_now verify db (err e) = refuse e db
recover_read uc up now db_now verify db (ok p) = recover_row uc up now db_now verify p db

-- RecoverExpired, after its checks.
unfoldable pub recover_with :
    PurchaseUseCase
    → Bool
    → Answers
    → Time
    → Time
    → ℕ
    → ℕ
    → Option (Purchase → Verdict)
    → Db
    → Response
recover_with uc read_up up now db_now id user none db =
    refuse (coded not_implemented payment_not_configured) db
recover_with uc read_up up now db_now id user (some verify) db =
    recover_read uc up now db_now verify db (get_owned read_up id user db)

unfoldable pub recover_expired :
    PurchaseUseCase → Bool → Answers → Time → Time → ℕ → ℕ → Db → Response
recover_expired uc read_up up now db_now id user db = elim (validate_ids id user) [
  | err e ↦ refuse e db
  | ok _ ↦
      if payments_configured uc
      then recover_with uc read_up up now db_now id user uc.verifier db
      else refuse (coded not_implemented payment_not_configured) db
]
