-- ===== src/Purchases/Calls.antt =====
-- The operations of PurchaseRepo as the calls that handlers and workers make, in any order. Each
-- call runs alone: the row locks and the single statements of the code make it so.
use nim_near.Prelude.{ℕ, List, [], ◌∷◌, Bool, Text}
use nim_near.Store.{Db, Answers, Time, Duration, PurchaseStatus}
use nim_near.Purchases.Rows.{get_active_for_event}
use nim_near.Purchases.Create.{create}
use nim_near.Purchases.Submit.{submit_transaction}
use nim_near.Purchases.Settle.{claim_verification, expire_unresolved, set_verification_state}
use nim_near.Purchases.Recover.{confirm_expired_recovery}

pub data Call : Type 0 where
  creates : Answers → ℕ → ℕ → ℕ → Time → Duration → Call
  reads_active : Answers → ℕ → ℕ → Time → Call
  submits : Answers → ℕ → ℕ → Text → Time → Time → Call
  claims : Bool → ℕ → ℕ → Time → Duration → Duration → Bool → Call
  settles : Answers → ℕ → ℕ → PurchaseStatus → Time → Time → Call
  expires : Answers → ℕ → ℕ → Time → Duration → Call
  recovers : Answers → ℕ → ℕ → Time → Time → Call

unfoldable pub step : Call → Db → Db
step (creates up id event user now hold) db = (create up id event user now hold db).1
step (reads_active up event user now) db = (get_active_for_event up event user now db).1
step (submits up id user h now deadline) db = (submit_transaction up id user h now deadline db).1
step (claims up id user now retry claim force) db =
    (claim_verification up id user now retry claim force db).1
step (settles up id user status now clock) db =
    (set_verification_state up id user status now clock db).1
step (expires up id user now fallback) db = (expire_unresolved up id user now fallback db).1
step (recovers up id user now clock) db = (confirm_expired_recovery up id user now clock db).1

unfoldable pub run : List Call → Db → Db
run [] db = db
run (c ∷ cs) db = run cs (step c db)
