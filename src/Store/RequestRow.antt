-- ===== src/Store/RequestRow.antt =====
-- backend/internal/domain/paymentrequest/model/request.go
use nim_near.Prelude.{ℕ, Bool, true, false, Option, Text, ltb, if◌then◌else◌, not, ◌&&◌, ◌==◌}
use nim_near.Store.NimiqTx.{Time}

pub data RequestStatus : Type 0 where
  pending submitted verifying paid failed expired cancelled : RequestStatus

abbrev pub request_rank : RequestStatus → ℕ
request_rank pending = 0
request_rank submitted = 1
request_rank verifying = 2
request_rank paid = 3
request_rank failed = 4
request_rank expired = 5
request_rank cancelled = 6

abbrev pub request_status_eq : RequestStatus → RequestStatus → Bool
request_status_eq s t = request_rank s == request_rank t

pub record Request : Type 0 where
  pub id : ℕ
  pub public_id : ℕ
  pub creator_user_id : ℕ
  pub recipient_address : Text
  pub amount_lunas : ℕ
  pub note : Option Text
  pub status : RequestStatus
  pub expires_at : Time
  pub cancelled_at : Option Time
  pub paid_at : Option Time
  pub payer_user_id : Option ℕ
  pub transaction_hash : Option Text
  pub reconciliation_deadline_at : Option Time
  pub last_verification_attempt_at : Option Time
  pub verification_claimed_until : Option Time
  pub created_at : Time
  pub updated_at : Time

abbrev pub request_is_pending : RequestStatus → Bool
request_is_pending pending = true
request_is_pending _ = false

-- status IN ('submitted', 'verifying')
abbrev pub request_in_flight : RequestStatus → Bool
request_in_flight submitted = true
request_in_flight verifying = true
request_in_flight _ = false

unfoldable pub effective_status : Request → Time → RequestStatus
effective_status r now =
    if request_is_pending r.status && not (ltb now r.expires_at) then expired else r.status

abbrev pub request_is_terminal : RequestStatus → Bool
request_is_terminal paid = true
request_is_terminal failed = true
request_is_terminal expired = true
request_is_terminal cancelled = true
request_is_terminal _ = false
