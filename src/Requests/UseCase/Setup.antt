-- ===== src/Requests/UseCase/Setup.antt =====
-- request.go: the fields of RequestUseCase, and publishStatus.
use nim_near.Prelude.{
  ℕ, ℤ, ◌*◌, Bool, true, false, Option, none, some, List, [], ◌∷◌, Text, if◌then◌else◌,
}
use nim_near.Store.{Time, Duration, hour, Request, RequestStatus}
use nim_near.Realtime.{
  EventType, wallet_activity_changed, StatusChanged, Bus, payment_request_event_type,
  unique_user_ids, request_status_text,
}
use nim_near.UseCases.{Policy, positive_or}
use nim_near.Nimiq.Verifier.{Transfer, Verdict}

-- The fields that the operations below read. The repository is never nil here; the identities are
-- those of VerifiedAddresses, with `none` for its error.
pub record RequestUseCase : Type 0 where
  pub identities : Option (ℕ → Option (List Text))
  pub verifier : Option (Transfer → Verdict)
  pub ttl : Duration
  pub network : Text
  pub policy : Policy
  pub events : Bus

-- `if ttl <= 0 { ttl = DefaultTTL }` of the constructor.
unfoldable pub normalize_ttl : ℤ → Duration
normalize_ttl ttl = positive_or ttl (24 * hour)

abbrev pub payer_ids : Option ℕ → List ℕ
payer_ids none = []
payer_ids (some p) = p ∷ []

abbrev pub status_event : EventType → Time → Request → StatusChanged
status_event t now r = record {
  event_type = t;
  resource_id = r.public_id;
  status = request_status_text r.status;
  user_ids = unique_user_ids (r.creator_user_id ∷ payer_ids r.payer_user_id);
  occurred_at = now;
}

abbrev pub is_paid : RequestStatus → Bool
is_paid RequestStatus.paid = true
is_paid _ = false

-- The events handed to Publish, in order. After a failed Publish the wallet event is not sent.
abbrev pub published : (StatusChanged → Bool) → EventType → Time → Request → List StatusChanged
published publish t now r =
    if publish (status_event t now r)
    then status_event t now r
      ∷ (if is_paid r.status then status_event wallet_activity_changed now r ∷ [] else [])
    else status_event t now r ∷ []

unfoldable pub publish_status : Bus → Time → Request → List StatusChanged
publish_status none now r = []
publish_status (some publish) now r = elim (payment_request_event_type r.status) [
  | none ↦ []
  | some t ↦ published publish t now r
]
