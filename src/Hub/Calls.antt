-- ===== src/Hub/Calls.antt =====
-- The calls that reach the hub, one after the other: every method holds Hub.mu.
use nim_near.Prelude.{ℕ, ◌≡◌, false, Option, none, some, [], ◌∷◌, Text}
use nim_near.Hub.Rooms.{Uuids}
use nim_near.Hub.State.{
  Hub, ClientInfo, Pipe, Run, returns, broadcast, send_to_client, unregister, close_hub, new_pipe,
  set_pipe,
}
use nim_near.Hub.Operations.{register, subscribe, unsubscribe, broadcast_to_organization}
use nim_near.Hub.Ending.{end_session}
use nim_near.Hub.Views.{is_subscribed}
use nim_near.Hub.Clients.{is_registered}

-- The methods, the function that Register returned (`unregisters`), the write pump, and the end of a
-- session, which calls removeClient of the session's own struct (`ends`).
pub data Call (M : Type 0) : Type 0 where
  registers : ClientInfo → Call M
  subscribes unsubscribes : ℕ → Text → Call M
  broadcasts : Text → M → Call M
  broadcasts_to : ℕ → Text → M → Call M
  sends : ℕ → M → Call M
  unregisters pumps ends : ℕ → Call M
  closes : Call M

module _ (uuids : Uuids) {M : Type 0} where
  -- A Subscribe or Unsubscribe that answers an error has changed nothing.
  abbrev pub or_same : Hub M → Option (Hub M) → Run (Hub M)
  or_same h none = returns h
  or_same h (some changed) = returns changed

  abbrev pub popped : Pipe M → Pipe M
  popped p = elim p.queue [ [] ↦ p | m ∷ ms ↦ record p { queue = ms } ]

  -- Connect makes the channel before it registers the client. The write pump takes one message.
  unfoldable pub perform : Call M → Hub M → Run (Hub M)
  unfolding register subscribe unsubscribe broadcast broadcast_to_organization send_to_client
      unregister close_hub end_session
  perform (registers info) h =
      register uuids info (record h { pipes = set_pipe info.id new_pipe h.pipes })
  perform (subscribes i channel) h = or_same h (subscribe uuids i channel h)
  perform (unsubscribes i channel) h = or_same h (unsubscribe uuids i channel h)
  perform (broadcasts k m) h = broadcast k m h
  perform (broadcasts_to org channel m) h = broadcast_to_organization uuids org channel m h
  perform (sends i m) h = send_to_client i m h
  perform (unregisters i) h = unregister i h
  perform (pumps i) h = returns (record h { pipes = set_pipe i (popped (h.pipes i)) h.pipes })
  perform (ends i) h = end_session i h
  perform closes h = close_hub h

  -- uuid.New gives an id that no client of the hub has, and a session ends when its client is in no
  -- room of the hub: what becomes of the others is in Sessions.
  abbrev pub IsOrderly : Call M → Hub M → Type 0
  IsOrderly (registers info) h = is_registered info.id h.clients ≡ false
  IsOrderly (ends i) h = (k : Text) → is_subscribed k i h.clients ≡ false
  IsOrderly call h = Unit

  -- The states that calls lead to.
  pub data Reach (s : Hub M) : Hub M → Type 0 where
    here : Reach s s
    next :
        {t u : Hub M}
        → Reach s t
        → (call : Call M) → IsOrderly call t
        → perform call t ≡ returns u
        → Reach s u
