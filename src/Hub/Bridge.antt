-- ===== src/Hub/Bridge.antt =====
-- backend/internal/infrastructure/websocket/event_bridge.go and fanout.go: domain events on their
-- way to the rooms of this process and to the other processes.
use nim_near.Prelude.{
  ℕ, not, ◌&&◌, Option, none, some, List, [], ◌∷◌, ◌==◌, if◌then◌else◌, Text, codes, text_eq,
}
use nim_near.Realtime.{StatusChanged, unique_user_ids}
use nim_near.Hub.Rooms.{
  Uuids, build_room_key, build_user_room_key, default_channel, payments_channel,
}
use nim_near.Hub.State.{Hub, Run, returns, ◌>>=◌, broadcast, contains_text}
use nim_near.Hub.Operations.{broadcast_to_organization}

-- The platform events that reach handleEvent, with the ids that route them.
pub data PlatformEvent : Type 0 where
  user_registered other_event : PlatformEvent
  role_assigned organization_created workspace_created : ℕ → PlatformEvent
  app_created app_updated : ℕ → ℕ → PlatformEvent
  endpoint_created endpoint_updated endpoint_retired endpoint_activated : ℕ → PlatformEvent

pub record EventRoute : Type 0 where
  pub organization_id : ℕ
  pub app_id : ℕ
  pub event_type : Text

abbrev route : ℕ → ℕ → Text → List EventRoute
route org app name = record { organization_id = org; app_id = app; event_type = name } ∷ []

unfoldable pub extract_routes : PlatformEvent → List EventRoute
extract_routes user_registered = []
extract_routes other_event = []
extract_routes (role_assigned org) = if org == 0 then [] else route org 0 (codes "role.assigned")
extract_routes (organization_created org) = route org 0 (codes "organization.created")
extract_routes (workspace_created org) = route org 0 (codes "workspace.created")
extract_routes (app_created org app) = route org app (codes "app.created")
extract_routes (app_updated org app) = route org app (codes "app.updated")
extract_routes (endpoint_created app) = route 0 app (codes "endpoint.created")
extract_routes (endpoint_updated app) = route 0 app (codes "endpoint.updated")
extract_routes (endpoint_retired app) = route 0 app (codes "endpoint.retired")
extract_routes (endpoint_activated app) = route 0 app (codes "endpoint.activated")

-- FanoutMessage
pub record FanoutMessage (M : Type 0) : Type 0 where
  pub origin_instance : Text
  pub user_ids : List Text
  pub payload : M

-- appRepo.GetByID: the organization of an app. The outer `none` is a bridge without a repository.
abbrev pub Apps : Type 0
Apps = Option (ℕ → Option ℕ)

-- The organization of a route; `none` is `continue`.
abbrev pub route_organization : Apps → EventRoute → Option ℕ
route_organization none r = some r.organization_id
route_organization (some get_app) r =
    if not (r.app_id == 0) && r.organization_id == 0
    then get_app r.app_id
    else some r.organization_id

-- The loop over the channels, less the names already seen.
unfoldable pub distinct_channels : List Text → List Text → List Text
unfolding contains_text
distinct_channels seen [] = []
distinct_channels seen (c ∷ cs) =
    let rest = distinct_channels (c ∷ seen) cs in
    let skipped = distinct_channels seen cs in if contains_text c seen then skipped else c ∷ rest

module _ (uuids : Uuids) where
  -- The ids of RedisRelay.Publish and MemoryRelay.Publish, as texts.
  unfoldable pub relayed_ids : List ℕ → List Text
  relayed_ids [] = []
  relayed_ids (u ∷ us) =
      let rest = relayed_ids us in if u == 0 then rest else uuids.to_text u ∷ rest

  abbrev pub add_parsed : Option ℕ → List ℕ → List ℕ
  add_parsed none ids = ids
  add_parsed (some id) ids = id ∷ ids

  unfoldable pub parsed_ids : List Text → List ℕ
  parsed_ids [] = []
  parsed_ids (raw ∷ raws) = add_parsed (uuids.parse raw) (parsed_ids raws)

module _ (uuids : Uuids) {M : Type 0} where
  abbrev pub broadcast_found : Option Text → M → Hub M → Run (Hub M)
  broadcast_found none m h = returns h
  broadcast_found (some k) m h = broadcast k m h

  unfoldable pub deliver_channels : ℕ → ℕ → List Text → M → Hub M → Run (Hub M)
  unfolding broadcast broadcast_to_organization build_room_key
  deliver_channels org app [] m h = returns h
  deliver_channels org app (c ∷ cs) m h =
      (if not (app == 0)
        then broadcast_found (build_room_key uuids org app c) m h
        else broadcast_to_organization uuids org c m h)
      >>= deliver_channels org app cs m

  -- One route of handleEvent. `encode` is json.Marshal of the message, for the organization that
  -- was found.
  abbrev pub deliver_encoded : ℕ → ℕ → Text → Option M → Hub M → Run (Hub M)
  deliver_encoded org app channel none h = returns h
  deliver_encoded org app channel (some m) h =
      deliver_channels org app (distinct_channels [] (default_channel ∷ channel ∷ [])) m h

  abbrev pub deliver_route :
      (EventRoute → ℕ → Option M) → Text → EventRoute → Option ℕ → Hub M → Run (Hub M)
  deliver_route encode channel r none h = returns h
  deliver_route encode channel r (some org) h =
      if org == 0 then returns h else deliver_encoded org r.app_id channel (encode r org) h

  unfoldable pub deliver_routes :
      Apps → (EventRoute → ℕ → Option M) → Text → List EventRoute → Hub M → Run (Hub M)
  unfolding deliver_channels distinct_channels
  deliver_routes apps encode channel [] h = returns h
  deliver_routes apps encode channel (r ∷ rs) h =
      deliver_route encode channel r (route_organization apps r) h
      >>= deliver_routes apps encode channel rs

  -- handleEvent
  unfoldable pub handle_event :
      Apps → (EventRoute → ℕ → Option M) → Text → PlatformEvent → Hub M → Run (Hub M)
  unfolding deliver_routes extract_routes
  handle_event apps encode channel event h =
      deliver_routes apps encode channel (extract_routes event) h

  unfoldable pub deliver_each : List ℕ → M → Hub M → Run (Hub M)
  unfolding broadcast build_user_room_key
  deliver_each [] m h = returns h
  deliver_each (u ∷ us) m h =
      broadcast_found (build_user_room_key uuids u payments_channel) m h >>= deliver_each us m

  -- DeliverToUsers
  unfoldable pub deliver_to_users : List ℕ → M → Hub M → Run (Hub M)
  unfolding deliver_each unique_user_ids
  deliver_to_users ids m h = deliver_each (unique_user_ids ids) m h

  unfoldable pub relay_publish : Text → List ℕ → M → FanoutMessage M
  unfolding relayed_ids
  relay_publish instance_id ids m = record {
    origin_instance = instance_id;
    user_ids = relayed_ids uuids ids;
    payload = m;
  }

  -- DeliverFanout
  unfoldable pub deliver_fanout : Text → FanoutMessage M → Hub M → Run (Hub M)
  unfolding deliver_to_users parsed_ids
  deliver_fanout instance_id msg h =
      if text_eq msg.origin_instance instance_id
      then returns h
      else deliver_to_users (parsed_ids uuids msg.user_ids) msg.payload h

  -- handlePaymentEvent, of an event of one of the payment types: the hub, and what the relay
  -- publishes. `encode` is json.Marshal of the message for the browser; `relay` is the instance id
  -- of a relay.
  abbrev pub published : Option Text → List ℕ → M → Option (FanoutMessage M)
  published none ids m = none
  published (some instance_id) ids m = some (relay_publish instance_id ids m)

  abbrev pub deliver_payment :
      Option Text → StatusChanged → Option M → Hub M → Run (Hub M × Option (FanoutMessage M))
  deliver_payment relay changed none h = returns (h, none)
  deliver_payment relay changed (some m) h = do
    delivered ← deliver_to_users changed.user_ids m h
    returns (delivered, published relay changed.user_ids m)

  unfoldable pub handle_payment_event :
      Option Text
      → (StatusChanged → Option M)
      → StatusChanged
      → Hub M
      → Run (Hub M × Option (FanoutMessage M))
  unfolding deliver_to_users relay_publish
  handle_payment_event relay encode changed h = deliver_payment relay changed (encode changed) h
