-- ===== src/Tests/Hub.antt =====
-- Runs of the hub, and the theorems about it at concrete inputs.
use nim_near.Prelude.{
  ℕ, ◌≡◌, refl, ap, ◌∙◌, true, false, Option, none, some, [], ◌∷◌, arith, ◌==◌, Text, codes,
  text_eq, All, All-mono, any, update_where, trim_space, trim_left,
}
use nim_near.Store.{RequestStatus}
use nim_near.Realtime.{StatusChanged, contains_id, payment_request_changed}
use nim_near.Money.Decimal.{
  format_int, digits, value, value-format_int, format_int-IsDigits, IsDigits,
}
use nim_near.Hub.Rooms.{
  Uuids, IsUuids, user_room, payments_channel, build_user_room_key, is_channel_name,
}
use nim_near.Hub.State.{
  Hub, ClientInfo, Pipe, panics, returns, ◌>>=◌, new_hub, new_pipe, add_to_found, add_to_room,
  broadcast, contains_text,
}
use nim_near.Hub.Operations.{own_room, default_room}
use nim_near.Hub.Views.{is_subscribed}
use nim_near.Hub.Clients.{is_registered}
use nim_near.Hub.Sound.{IsSound}
use nim_near.Hub.Safe.{IsSafe, empty-IsSound}
use nim_near.Hub.Calls.{registers, sends, perform, Reach, here, next}
use nim_near.Hub.Reached.{register-admits, admitted_hub, listed, Reach-IsSound, Reach-never-panics}
use nim_near.Hub.Ending.{end_session}
use nim_near.Hub.Sessions.{broadcast-end_session}
use nim_near.Hub.Delivered.{Sends}
use nim_near.Hub.Addressed.{is_addressed}
use nim_near.Hub.Bridge.{handle_payment_event, deliver_fanout, relay_publish}
use nim_near.Hub.Relayed.{handle_payment_event-Sends, deliver_fanout-Sends}

-- UUIDs written as decimal numbers.
abbrev uuids : Uuids
uuids = record { to_text = format_int; parse = λ s. some (value s 0) }

no_colon : (s : Text) → IsDigits s → All (λ c. (c == b':') ≡ false) s
no_colon s h = All-mono s (λ c d. ground (arith, d)) h

uuids-IsUuids : IsUuids uuids
uuids-IsUuids id =
    (ap some (value-format_int id), no_colon (format_int id) (format_int-IsDigits id))

abbrev pipes : ℕ → Pipe ℕ
pipes i = new_pipe

abbrev empty_hub : Hub ℕ
empty_hub = new_hub 2 pipes

-- Client 1 of user 7, with no organization.
abbrev info : ClientInfo
info = record { id = 1; user_id = 7; organization_id = 0; app_id = 0 }

abbrev hub : Hub ℕ
hub = admitted_hub uuids info empty_hub

reached : Reach uuids empty_hub hub
unfolding perform is_registered any
reached = next here (registers info) refl (register-admits uuids info empty_hub refl refl refl)

hub-IsSound : IsSound hub
hub-IsSound = Reach-IsSound uuids (empty-IsSound empty_hub refl refl) reached

add_to_found-is_closed :
    (found : Option Text) (i : ℕ) (h : Hub ℕ) → (add_to_found found i h).is_closed ≡ h.is_closed
unfolding add_to_room
add_to_found-is_closed none i h = refl
add_to_found-is_closed (some k) i h = refl

hub_open : hub.is_closed ≡ false
hub_open =
    add_to_found-is_closed (own_room uuids info) 1
      (add_to_found (default_room uuids info) 1 (listed uuids info empty_hub))
    ∙ add_to_found-is_closed (default_room uuids info) 1 (listed uuids info empty_hub)

in_payments : is_subscribed (user_room uuids 7 payments_channel) 1 hub.clients ≡ true
unfolding is_subscribed any contains_text add_to_room update_where build_user_room_key trim_space
    trim_left is_channel_name text_eq format_int digits
in_payments = refl

Reach-never-panics_example : IsSafe (perform uuids (sends 1 5) hub)
Reach-never-panics_example = Reach-never-panics uuids 2 pipes reached (sends 1 5) tt

broadcast-end_session_example :
    end_session 1 hub >>= broadcast (user_room uuids 7 payments_channel) 5 ≡ panics
broadcast-end_session_example =
    broadcast-end_session 1 (user_room uuids 7 payments_channel) 5 hub hub-IsSound hub_open
      in_payments

abbrev paid : StatusChanged
paid = record {
  event_type = payment_request_changed RequestStatus.paid;
  resource_id = 3;
  status = codes "paid";
  user_ids = 7 ∷ 8 ∷ 7 ∷ [];
  occurred_at = 0;
}

handle_payment_event-Sends_example :
    (t : Hub ℕ) × (handle_payment_event uuids (some (codes "a")) (λ e. some 5) paid hub
      ≡ returns (t, some (relay_publish uuids (codes "a") (7 ∷ 8 ∷ 7 ∷ []) 5)))
    × Sends (λ i. is_addressed uuids (7 ∷ 8 ∷ 7 ∷ []) i hub.clients) 5 hub.pipes t.pipes
handle_payment_event-Sends_example =
    handle_payment_event-Sends uuids uuids-IsUuids 2 pipes reached hub_open 5 (codes "a")
      (λ e. some 5) paid refl

deliver_fanout-Sends_example :
    (t : Hub ℕ) × (deliver_fanout uuids (codes "b") (relay_publish uuids (codes "a") (7 ∷ []) 5) hub
      ≡ returns t)
    × Sends (λ i. is_addressed uuids (7 ∷ []) i hub.clients) 5 hub.pipes t.pipes
unfolding text_eq
deliver_fanout-Sends_example =
    deliver_fanout-Sends uuids uuids-IsUuids 2 pipes reached hub_open 5 (codes "a") (codes "b")
      (7 ∷ []) refl

-- The clients of user 7 are addressed, and nobody else.
addressed : is_addressed uuids (8 ∷ 7 ∷ []) 1 hub.clients ≡ true
unfolding is_addressed any contains_id contains_text add_to_room update_where build_user_room_key
    trim_space trim_left is_channel_name text_eq format_int digits
addressed = refl
