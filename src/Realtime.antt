-- ===== src/Realtime.antt =====
-- backend/internal/domain/realtime/event/events.go: the domain events of the payment code.
use nim_near.Prelude.{
  ℕ, Bool, false, ◌||◌, Option, none, some, List, [], ◌∷◌, if◌then◌else◌, ◌==◌, Text, codes,
}
use nim_near.Store.{Time, RequestStatus, PurchaseStatus}

-- The type of an event: payment_request.<status>, event_purchase.<status>, wallet.activity_changed.
pub data EventType : Type 0 where
  payment_request_changed : RequestStatus → EventType
  event_purchase_changed : PurchaseStatus → EventType
  wallet_activity_changed : EventType

-- `none` is the empty string: a pending row publishes nothing.
abbrev pub payment_request_event_type : RequestStatus → Option EventType
payment_request_event_type RequestStatus.pending = none
payment_request_event_type s = some (payment_request_changed s)

abbrev pub event_purchase_event_type : PurchaseStatus → Option EventType
event_purchase_event_type PurchaseStatus.pending = none
event_purchase_event_type s = some (event_purchase_changed s)

-- The strings of model.Status.
abbrev pub request_status_text : RequestStatus → Text
request_status_text RequestStatus.pending = codes "pending"
request_status_text RequestStatus.submitted = codes "submitted"
request_status_text RequestStatus.verifying = codes "verifying"
request_status_text RequestStatus.paid = codes "paid"
request_status_text RequestStatus.failed = codes "failed"
request_status_text RequestStatus.expired = codes "expired"
request_status_text RequestStatus.cancelled = codes "cancelled"

abbrev pub purchase_status_text : PurchaseStatus → Text
purchase_status_text PurchaseStatus.pending = codes "pending"
purchase_status_text PurchaseStatus.submitted = codes "submitted"
purchase_status_text PurchaseStatus.verifying = codes "verifying"
purchase_status_text PurchaseStatus.confirmed = codes "confirmed"
purchase_status_text PurchaseStatus.failed = codes "failed"
purchase_status_text PurchaseStatus.expired = codes "expired"
purchase_status_text PurchaseStatus.cancelled = codes "cancelled"

pub record StatusChanged : Type 0 where
  pub event_type : EventType
  pub resource_id : ℕ
  pub status : Text
  pub user_ids : List ℕ
  pub occurred_at : Time

unfoldable pub contains_id : ℕ → List ℕ → Bool
contains_id u [] = false
contains_id u (v ∷ vs) = u == v || contains_id u vs

-- The loop of UniqueUserIDs: `seen` is the map, and the order of the first occurrences stays.
unfoldable pub unique_from : List ℕ → List ℕ → List ℕ
unfolding contains_id
unique_from seen [] = []
unique_from seen (u ∷ us) =
    let rest = unique_from (u ∷ seen) us in
    let skipped = unique_from seen us in if u == 0 || contains_id u seen then skipped else u ∷ rest

unfoldable pub unique_user_ids : List ℕ → List ℕ
unfolding unique_from
unique_user_ids us = unique_from [] us

-- EventBus.Publish: whether it succeeds. `none` is a use case without a bus.
abbrev pub Bus : Type 0
Bus = Option (StatusChanged → Bool)
