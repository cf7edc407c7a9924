-- ===== src/Requests/Calls.antt =====
-- The operations of RequestRepo as the calls that handlers and workers make, in any order. Each
-- call runs alone: the row locks and the single statements of the code make it so.
use nim_near.Prelude.{ℕ, List, [], ◌∷◌, Bool, Text}
use nim_near.Store.{Db, Answers, Time, Duration, Request, RequestStatus}
use nim_near.Requests.Rows.{create, get_by_public_id, get_owned_by_public_id, list_by_creator}
use nim_near.Requests.Cancel.{cancel}
use nim_near.Requests.Submit.{submit_transaction}
use nim_near.Requests.Settle.{
  claim_verification, set_verification_state, expire_unresolved, confirm_expired_recovery,
}

pub data Call : Type 0 where
  creates : Answers → Request → Call
  reads : Answers → ℕ → Time → Call
  reads_owned : Answers → ℕ → ℕ → Time → Call
  lists : Answers → ℕ → Time → ℕ → Call
  cancels : Answers → ℕ → ℕ → Time → Call
  submits : Answers → ℕ → ℕ → Text → Time → Time → Call
  claims : Bool → ℕ → Time → Duration → Duration → Bool → Call
  settles : Answers → ℕ → RequestStatus → Time → Call
  expires : Answers → ℕ → Time → Duration → Call
  recovers : Answers → ℕ → Time → Call

unfoldable pub step : Call → Db → Db
step (creates up r) db = (create up r db).1
step (reads up i now) db = (get_by_public_id up i now db).1
step (reads_owned up i c now) db = (get_owned_by_public_id up i c now db).1
step (lists up c now limit) db = (list_by_creator up c now limit db).1
step (cancels up i c now) db = (cancel up i c now db).1
step (submits up i p h now deadline) db = (submit_transaction up i p h now deadline db).1
step (claims up i now retry claim force) db = (claim_verification up i now retry claim force db).1
step (settles up i status now) db = (set_verification_state up i status now db).1
step (expires up i now fallback) db = (expire_unresolved up i now fallback db).1
step (recovers up i now) db = (confirm_expired_recovery up i now db).1

unfoldable pub run : List Call → Db → Db
run [] db = db
run (c ∷ cs) db = run cs (step c db)
