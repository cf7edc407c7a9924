-- ===== src/Hub/Operations.antt =====
-- backend/internal/infrastructure/websocket/hub.go: registration and the channels of the clients.
use nim_near.Prelude.{
  ℕ, Bool, false, not, ◌&&◌, ◌||◌, Option, none, some, [], ◌∷◌, ltb, leb, ◌==◌, ◌++◌, ◌+◌,
  if◌then◌else◌, Text, codes, text_eq, find, select, length, is_none, reverse,
}
use nim_near.Hub.Rooms.{
  Uuids, build_room_key, build_user_room_key, strip_prefix, default_channel, payments_channel,
}
use nim_near.Hub.State.{
  Hub, Client, ClientInfo, Run, returns, ◌>>=◌, with_pipes, close_pipe, by_id, broadcast_each,
  add_to_room, remove_from_room, add_to_found, without_client,
}

abbrev pub new_client : ClientInfo → Client
new_client info = record { info = info; rooms = []; is_closed = false }

module _ (uuids : Uuids) where
  abbrev pub default_room : ClientInfo → Option Text
  default_room info =
      if not (info.organization_id == 0) && not (info.app_id == 0)
      then build_room_key uuids info.organization_id info.app_id default_channel
      else none

  abbrev pub own_room : ClientInfo → Option Text
  own_room info =
      if not (info.user_id == 0)
      then build_user_room_key uuids info.user_id payments_channel
      else none

  -- roomForClientLocked
  unfoldable pub room_for_client : ClientInfo → Text → Option Text
  unfolding build_room_key build_user_room_key
  room_for_client info channel =
      if info.organization_id == 0 || info.app_id == 0
      then (if text_eq channel payments_channel
          then build_user_room_key uuids info.user_id payments_channel
          else none)
      else build_room_key uuids info.organization_id info.app_id channel

  -- The rooms that BroadcastToOrganization takes.
  unfoldable pub is_organization_room : ℕ → Text → Text → Bool
  unfolding strip_prefix
  is_organization_room org channel name =
      ltb (length prefix_of + length suffix_of) (length name)
      && (not (is_none (strip_prefix prefix_of name))
          && not (is_none (strip_prefix (reverse suffix_of) (reverse name))))
    where
      prefix_of : Text
      prefix_of = codes "org:" ++ (uuids.to_text org ++ codes ":app:")

      suffix_of : Text
      suffix_of = codes ":channel:" ++ channel

module _ (uuids : Uuids) {M : Type 0} where
  abbrev pub admit : ClientInfo → Hub M → Hub M
  admit info h = add_to_found (own_room uuids info) info.id (
      add_to_found (default_room uuids info) info.id
        (record h { clients = new_client info ∷ without_client info.id h.clients }))

  -- Register, of a channel that the handler has made for the client.
  unfoldable pub register : ClientInfo → Hub M → Run (Hub M)
  unfolding build_room_key build_user_room_key add_to_room without_client
  register info h =
      if h.is_closed
      then returns h
      else if leb h.max_connections (length h.clients)
      then close_pipe info.id h.pipes >>= with_pipes h
      else returns (admit info h)

  abbrev pub room_of : ℕ → Text → Hub M → Option Text
  room_of i channel h = elim (find (by_id i) h.clients) [
    | none ↦ none
    | some c ↦ room_for_client uuids c.info channel
  ]

  -- Subscribe and Unsubscribe. `none` is their error.
  unfoldable pub subscribe : ℕ → Text → Hub M → Option (Hub M)
  unfolding find room_for_client add_to_room
  subscribe i channel h = elim (room_of i channel h) [
    | none ↦ none
    | some k ↦ some (add_to_room k i h)
  ]

  unfoldable pub unsubscribe : ℕ → Text → Hub M → Option (Hub M)
  unfolding find room_for_client remove_from_room
  unsubscribe i channel h = elim (room_of i channel h) [
    | none ↦ none
    | some k ↦ some (remove_from_room k i h)
  ]

  unfoldable pub broadcast_to_organization : ℕ → Text → M → Hub M → Run (Hub M)
  unfolding select is_organization_room broadcast_each
  broadcast_to_organization org channel m h =
      broadcast_each (select (λ r. is_organization_room uuids org channel r.name) h.rooms) m h
