-- ===== src/Requests/UseCase/Commands.antt =====
-- request.go: the operations of RequestUseCase on an existing request. The mapping of the row to a
-- response is not modelled: an operation answers with the row.
use nim_near.Prelude.{
  ℕ, pos, ◌+◌, Bool, not, ◌&&◌, ◌||◌, none, some, List, [], ◌++◌, Text, ◌==◌, if◌then◌else◌,
  is_none, coalesce, exists, is_empty, trim_space, Result, ok, err, Error, plain, coded,
  bad_request, unauthorized, not_found, validation, not_implemented, conflict,
  payment_not_configured, invalid_transaction_hash, payment_request_not_recoverable, require, ◌>>◌,
}
use nim_near.Store.{Db, Answers, Time, Request, RequestStatus, request_in_flight, request_status_eq}
use nim_near.Nimiq.Verifier as Verifier
use nim_near.Nimiq.Verifier.{Transfer, Verdict, outcome, unreachable}
use nim_near.UseCases.{is_transaction_hash, normalize_hash, require_identity}
use nim_near.Realtime.{StatusChanged}
use nim_near.Requests.Rows.{get_by_public_id, get_owned_by_public_id}
use nim_near.Requests.Cancel as Repo
use nim_near.Requests.Submit as RepoSubmit
use nim_near.Requests.Settle.{confirm_expired_recovery, is_recoverable}
use nim_near.Requests.UseCase.Setup.{RequestUseCase, publish_status}
use nim_near.Requests.UseCase.Reconcile.{Run, reconcile_request}

-- What an operation answers, the tables that it leaves, and the events that it published.
pub record Response : Type 0 where
  pub result : Result Request
  pub db : Db
  pub events : List StatusChanged

abbrev pub respond : Result Request × Db → Response
respond (result, db) = record { result = result; db = db; events = [] }

abbrev pub refuse : Error → Db → Response
refuse e db = record { result = err e; db = db; events = [] }

-- validateRequestIdentity: uuid.Nil is 0.
abbrev pub validate_request_identity : ℕ → ℕ → Result (Unit {0})
validate_request_identity public_id user =
    require (not (public_id == 0)) (plain bad_request)
    >> require (not (user == 0)) (plain unauthorized)

-- `uc.verifier == nil || strings.TrimSpace(uc.network) == ""`, negated.
abbrev pub is_configured : RequestUseCase → Bool
is_configured uc = not (is_none uc.verifier) && not (is_empty (trim_space uc.network))

-- The checks of SubmitTransaction before it reaches the repository, in their order.
unfoldable pub check_submission : RequestUseCase → ℕ → ℕ → Text → Result (Unit {0})
check_submission uc public_id payer hash = do
  validate_request_identity public_id payer
  require (is_configured uc) (coded not_implemented payment_not_configured)
  require_identity uc.identities payer
  require (is_transaction_hash (normalize_hash hash)) (coded validation invalid_transaction_hash)

-- maybeVerify
unfoldable pub maybe_verify :
    RequestUseCase → Run → Request → Db → Request × Db × List StatusChanged
maybe_verify uc run r db =
    if request_in_flight r.status
    then (let a = reconcile_request uc run r db in (a.row, a.db, a.events))
    else (r, db, [])

abbrev pub verified : RequestUseCase → Run → List StatusChanged → Request → Db → Response
verified uc run sent r db =
    let a = reconcile_request uc run r db in
    record { result = ok a.row; db = a.db; events = sent ++ a.events }

-- After the repository: publish a submission, and try to verify it at once.
unfoldable pub after_submit : RequestUseCase → Run → Time → Result Request × Db → Response
after_submit uc run now (err e, db) = refuse e db
after_submit uc run now (ok r, db) =
    verified uc run
      (if request_status_eq r.status RequestStatus.submitted
        then publish_status uc.events now r
        else [])
      r db

unfoldable pub submit_transaction :
    RequestUseCase → Answers → Run → Time → ℕ → ℕ → Text → Db → Response
submit_transaction uc up run now public_id payer hash db =
    elim (check_submission uc public_id payer hash) [
      | err e ↦ refuse e db
      | ok _ ↦ after_submit uc run now (
          RepoSubmit.submit_transaction up public_id payer (normalize_hash hash) now
            (now + uc.policy.deadline) db)
    ]

unfoldable pub read_public : RequestUseCase → Run → Result Request × Db → Response
read_public uc run (err e, db) = refuse e db
read_public uc run (ok r, db) =
    let (row, db', sent) = maybe_verify uc run r db in
    record { result = ok row; db = db'; events = sent }

unfoldable pub get_public : RequestUseCase → Answers → Run → Time → ℕ → Db → Response
get_public uc up run now public_id db =
    if public_id == 0
    then refuse (plain bad_request) db
    else read_public uc run (get_by_public_id up public_id now db)

unfoldable pub get_owned : RequestUseCase → Answers → Run → Time → ℕ → ℕ → Db → Response
get_owned uc up run now public_id creator db = elim (validate_request_identity public_id creator) [
  | err e ↦ refuse e db
  | ok _ ↦ read_public uc run (get_owned_by_public_id up public_id creator now db)
]

unfoldable pub after_cancel : RequestUseCase → Time → Request → Result Request × Db → Response
after_cancel uc now before (err e, db) = refuse e db
after_cancel uc now before (ok r, db) = record {
  result = ok r;
  db = db;
  events = if request_status_eq before.status r.status then [] else publish_status uc.events now r;
}

unfoldable pub cancel_read :
    RequestUseCase → Answers → Time → ℕ → ℕ → Result Request × Db → Response
cancel_read uc up now public_id creator (err e, db) = refuse e db
cancel_read uc up now public_id creator (ok before, db) =
    after_cancel uc now before (Repo.cancel up public_id creator now db)

-- Cancel: `read_up` answers the read of the row, and `up` the cancellation.
unfoldable pub cancel : RequestUseCase → Answers → Answers → Time → ℕ → ℕ → Db → Response
cancel uc read_up up now public_id creator db = elim (validate_request_identity public_id creator) [
  | err e ↦ refuse e db
  | ok _ ↦
      cancel_read uc up now public_id creator
        (get_owned_by_public_id read_up public_id creator now db)
]

-- The creator and the payer may recover a request.
abbrev pub may_recover : Request → ℕ → Bool
may_recover r actor = r.creator_user_id == actor || exists (λ p. p == actor) r.payer_user_id

abbrev pub recovery_transfer : Request → ℕ → Transfer
recovery_transfer r actor = record {
  transaction_hash = coalesce r.transaction_hash [];
  recipient = r.recipient_address;
  amount_lunas = pos r.amount_lunas;
  payer_user_id = coalesce r.payer_user_id actor;
}

unfoldable pub after_recovery : RequestUseCase → Time → Request → Result Request × Db → Response
after_recovery uc now before (err e, db) = refuse e db
after_recovery uc now before (ok r, db) = record {
  result = ok r;
  db = db;
  events = if request_status_eq r.status before.status then [] else publish_status uc.events now r;
}

-- Only a confirmed transfer reaches ConfirmExpiredRecovery.
unfoldable pub recover_verified :
    RequestUseCase → Answers → Time → Request → Verdict → Db → Response
recover_verified uc up now r (outcome Verifier.confirmed) db =
    after_recovery uc now r (confirm_expired_recovery up r.id now db)
recover_verified uc up now r _ db = record { result = ok r; db = db; events = [] }

unfoldable pub recover_row :
    RequestUseCase → Answers → Time → ℕ → (Transfer → Verdict) → Request → Db → Response
recover_row uc up now actor verify r db =
    if not (may_recover r actor)
    then refuse (plain not_found) db
    else if request_status_eq r.status RequestStatus.paid
    then record { result = ok r; db = db; events = [] }
    else if is_recoverable r
    then recover_verified uc up now r (verify (recovery_transfer r actor)) db
    else refuse (coded conflict payment_request_not_recoverable) db

unfoldable pub recover_read :
    RequestUseCase → Answers → Time → ℕ → (Transfer → Verdict) → Result Request × Db → Response
recover_read uc up now actor verify (err e, db) = refuse e db
recover_read uc up now actor verify (ok r, db) = recover_row uc up now actor verify r db

-- RecoverExpired: `read_time` and `now` are the two readings of the clock.
unfoldable pub recover_expired :
    RequestUseCase → Answers → Answers → Time → Time → ℕ → ℕ → Db → Response
recover_expired uc read_up up read_time now public_id actor db =
    elim (validate_request_identity public_id actor) [
      | err e ↦ refuse e db
      | ok _ ↦
          (if is_empty (trim_space uc.network)
            then refuse (coded not_implemented payment_not_configured) db
            else (elim uc.verifier [
              | none ↦ refuse (coded not_implemented payment_not_configured) db
              | some verify ↦
                  recover_read uc up now actor verify
                    (get_by_public_id read_up public_id read_time db)
            ]))
    ]
