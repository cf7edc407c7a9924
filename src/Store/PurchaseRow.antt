-- ===== src/Store/PurchaseRow.antt =====
-- backend/internal/domain/eventpurchase/model/purchase.go
use nim_near.Prelude.{ℕ, Bool, true, false, Option, Text, ◌==◌}
use nim_near.Store.NimiqTx.{Time}

pub data PurchaseStatus : Type 0 where
  pending submitted verifying confirmed failed expired cancelled : PurchaseStatus

abbrev pub purchase_rank : PurchaseStatus → ℕ
purchase_rank pending = 0
purchase_rank submitted = 1
purchase_rank verifying = 2
purchase_rank confirmed = 3
purchase_rank failed = 4
purchase_rank expired = 5
purchase_rank cancelled = 6

abbrev pub purchase_status_eq : PurchaseStatus → PurchaseStatus → Bool
purchase_status_eq s t = purchase_rank s == purchase_rank t

pub record Purchase : Type 0 where
  pub id : ℕ
  pub event_id : ℕ
  pub user_id : ℕ
  pub amount_lunas : ℕ
  pub status : PurchaseStatus
  pub capacity_hold_expires_at : Option Time
  pub reconciliation_deadline_at : Option Time
  pub last_verification_attempt_at : Option Time
  pub verification_claimed_until : Option Time
  pub transaction_hash : Option Text
  pub created_at : Time
  pub updated_at : Time
  pub confirmed_at : Option Time

abbrev pub purchase_is_pending : PurchaseStatus → Bool
purchase_is_pending pending = true
purchase_is_pending _ = false

-- status IN ('submitted', 'verifying')
abbrev pub purchase_in_flight : PurchaseStatus → Bool
purchase_in_flight submitted = true
purchase_in_flight verifying = true
purchase_in_flight _ = false

-- status IN ('pending', 'submitted', 'verifying', 'confirmed')
abbrev pub purchase_is_active : PurchaseStatus → Bool
purchase_is_active pending = true
purchase_is_active submitted = true
purchase_is_active verifying = true
purchase_is_active confirmed = true
purchase_is_active _ = false
