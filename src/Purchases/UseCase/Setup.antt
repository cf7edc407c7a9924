-- ===== src/Purchases/UseCase/Setup.antt =====
-- purchase.go: the fields of PurchaseUseCase, and publishStatus.
use nim_near.Prelude.{
  ℕ, Bool, not, ◌&&◌, Option, none, some, List, [], ◌∷◌, Text, is_none, is_empty, trim_space,
}
use nim_near.Store.{Time, Duration, Purchase, PurchaseStatus}
use nim_near.Realtime.{
  EventType, wallet_activity_changed, StatusChanged, Bus, event_purchase_event_type,
  unique_user_ids, purchase_status_text,
}
use nim_near.Nimiq.Verifier.{Verdict}
use nim_near.UseCases.{Policy}

-- The repository is never nil here; the identities are those of VerifiedAddresses, with `none` for
-- its error, and the verifier is the method Verify of the interface.
pub record PurchaseUseCase : Type 0 where
  pub identities : Option (ℕ → Option (List Text))
  pub verifier : Option (Purchase → Verdict)
  pub hold_duration : Duration
  pub recipient : Text
  pub network : Text
  pub policy : Policy
  pub events : Bus

unfoldable pub payments_configured : PurchaseUseCase → Bool
payments_configured uc =
    not (is_none uc.verifier)
    && not (is_empty (trim_space uc.recipient))
    && not (is_empty (trim_space uc.network))

abbrev pub status_event : EventType → Time → Purchase → StatusChanged
status_event t now p = record {
  event_type = t;
  resource_id = p.id;
  status = purchase_status_text p.status;
  user_ids = unique_user_ids (p.user_id ∷ []);
  occurred_at = now;
}

abbrev pub wallet_events : Time → Purchase → PurchaseStatus → List StatusChanged
wallet_events now p PurchaseStatus.confirmed = status_event wallet_activity_changed now p ∷ []
wallet_events now p _ = []

-- The events handed to Publish, in order: the answers of Publish are dropped.
unfoldable pub publish_status : Bus → Time → Purchase → List StatusChanged
publish_status none now p = []
publish_status (some publish) now p = elim (event_purchase_event_type p.status) [
  | none ↦ []
  | some t ↦ status_event t now p ∷ wallet_events now p p.status
]
