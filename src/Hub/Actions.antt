-- ===== src/Hub/Actions.antt =====
-- backend/internal/infrastructure/http/handler/realtime/handler.go: handleClientAction, what a
-- connected client asks.
use nim_near.Prelude.{ℕ, Bool, Option, none, some, if◌then◌else◌, Text, codes, text_eq, trim_space}
use nim_near.Hub.Rooms.{Uuids, is_channel_name}
use nim_near.Hub.State.{Hub, Run, returns, send_to_client}
use nim_near.Hub.Operations.{subscribe, unsubscribe}

-- model.InboundMessage, as json.Unmarshal reads it.
pub record InboundMessage : Type 0 where
  pub action : Text
  pub channel : Text

-- The types of model.NewControlMessage, with the channel of a subscription. The texts of errors are
-- left out.
pub data ControlMessage : Type 0 where
  pong error : ControlMessage
  subscribed : Text → ControlMessage

-- ValidateChannelName
unfoldable pub validate_channel_name : Text → Bool
unfolding is_channel_name trim_space
validate_channel_name name = is_channel_name (trim_space name)

module _ (uuids : Uuids) {M : Type 0} (encode : ControlMessage → M) where
  -- sendControl
  unfoldable pub send_control : ℕ → ControlMessage → Hub M → Run (Hub M)
  unfolding send_to_client
  send_control i message h = send_to_client i (encode message) h

  abbrev pub after_subscribe : ℕ → Text → Hub M → Option (Hub M) → Run (Hub M)
  after_subscribe i channel h none = send_control i error h
  after_subscribe i channel h (some t) = send_control i (subscribed channel) t

  abbrev pub after_unsubscribe : ℕ → Hub M → Option (Hub M) → Run (Hub M)
  after_unsubscribe i h none = send_control i error h
  after_unsubscribe i h (some t) = returns t

  -- The switch on the action.
  unfoldable pub dispatch : ℕ → InboundMessage → Hub M → Run (Hub M)
  unfolding validate_channel_name send_control subscribe unsubscribe text_eq
  dispatch i msg h =
      if text_eq msg.action (codes "ping")
      then send_control i pong h
      else if text_eq msg.action (codes "subscribe")
      then (if validate_channel_name msg.channel
          then after_subscribe i msg.channel h (subscribe uuids i msg.channel h)
          else send_control i error h)
      else if text_eq msg.action (codes "unsubscribe")
      then (if validate_channel_name msg.channel
          then after_unsubscribe i h (unsubscribe uuids i msg.channel h)
          else send_control i error h)
      else send_control i error h

  -- handleClientAction. `none` is a message that is no JSON.
  unfoldable pub handle_client_action : ℕ → Option InboundMessage → Hub M → Run (Hub M)
  unfolding dispatch send_control
  handle_client_action i none h = send_control i error h
  handle_client_action i (some msg) h = dispatch i msg h
