-- ===== src/Hub/Sessions.antt =====
-- backend/internal/infrastructure/websocket/session.go and the end of Handler.Connect
-- (infrastructure/http/handler/realtime/handler.go): a connection from its upgrade to its end.
use nim_near.Prelude.{
  ℕ, ◌≡◌, refl, inl, inr, true, false, List, [], ◌∷◌, arith, leb, Bool-cases, Text, length,
}
use nim_near.Realtime.{contains_id}
use nim_near.Hub.Rooms.{Uuids}
use nim_near.Hub.State.{
  Hub, ClientInfo, Pipe, Run, panics, ◌>>=◌, with_pipes, push, pushed, send_each, set_pipe,
  new_pipe, broadcast, leave_rooms, members_of,
}
use nim_near.Hub.Ending.{end_session, ended, end_session-ended}
use nim_near.Hub.Operations.{register}
use nim_near.Hub.Views.{is_member, is_subscribed}
use nim_near.Hub.Clients.{is_registered, is_subscribed-new}
use nim_near.Hub.Sound.{IsSound, push-opens}
use nim_near.Hub.Reached.{register-full}

module _ {M : Type 0} where
  -- Connect, after the upgrade: the channel, Register, and the welcome message.
  unfoldable pub connect : Uuids → ClientInfo → M → Hub M → Run (Hub M)
  unfolding register
  connect uuids info welcome h = do
    registered ← register uuids info (record h { pipes = set_pipe info.id new_pipe h.pipes })
    pipes ← push info.id welcome registered.pipes
    with_pipes registered pipes

  push-panics :
      (i : ℕ) (m : M) (pipes : ℕ → Pipe M) → (pipes i).is_closed ≡ true → push i m pipes ≡ panics
  push-panics i m pipes h = rw h refl

  send_each-panics :
      (i : ℕ) (is : List ℕ) (m : M) (pipes : ℕ → Pipe M)
      → contains_id i is ≡ true
      → (pipes i).is_closed ≡ true
      → send_each is m pipes ≡ panics
  unfolding send_each contains_id
  send_each-panics i [] m pipes c h = cc
  send_each-panics i (j ∷ js) m pipes c h = elim (Bool-cases (pipes j).is_closed) [
    | inl e ↦ rw e refl
    | inr e ↦ rw (push-opens j m pipes e) (
        send_each-panics i js m (set_pipe j (pushed m (pipes j)) pipes) (ground (arith, e))
          (ground (arith, e)))
  ]

  -- On a sound hub that is open, when the session of a client that is subscribed to a room has
  -- ended, the next message to that room panics: the room still lists the client, and its channel
  -- is closed.
  pub broadcast-end_session :
      (i : ℕ) (k : Text) (m : M) (h : Hub M)
      → IsSound h
      → h.is_closed ≡ false
      → is_subscribed k i h.clients ≡ true
      → end_session i h >>= broadcast k m ≡ panics
  unfolding broadcast is_member leave_rooms
  broadcast-end_session i k m h s e sub = elim (Bool-cases (is_registered i h.clients)) [
    | inl r ↦
        rw
          (
            end_session-ended i h r (s.open_pipes i r),
            e,
            send_each-panics i (members_of k h.rooms) m (ended i h).pipes
                (ground (arith, s.agrees k i, sub)) (ground arith),
          )
          refl
    | inr r ↦ ground (arith, is_subscribed-new k i h.clients r)
  ]

-- Connect panics on a hub that is full: Register has closed the channel before the welcome message
-- is sent.
pub connect-full :
    (uuids : Uuids) {M : Type 0} (info : ClientInfo) (welcome : M) (h : Hub M)
    → h.is_closed ≡ false
    → leb h.max_connections (length h.clients) ≡ true
    → connect uuids info welcome h ≡ panics
unfolding connect
connect-full uuids info welcome h e f =
    let r = register-full uuids info h e f in
    rw
      (
        r.1,
        push-panics info.id welcome (set_pipe info.id r.0 (set_pipe info.id new_pipe h.pipes))
            (ground (arith, r.2)),
      )
      refl
