-- ===== src/Hub/Ending.antt =====
-- backend/internal/infrastructure/websocket/session.go: what the read pump does when a connection
-- ends.
use nim_near.Prelude.{ℕ, ◌≡◌, refl, true, false, [], arith}
use nim_near.Hub.State.{
  Hub, Client, Run, returns, ◌>>=◌, set_pipe, remove_client, unregister, leave_rooms,
  without_client,
}
use nim_near.Hub.Clients.{is_registered, is_registered-without, unregistered-find}
use nim_near.Hub.Sound.{IsOpen}

-- The struct client that Session.Start makes: it has the id and the channel of the hub's, and no
-- rooms.
abbrev pub session_client : ℕ → Client
session_client i = record {
  info = record { id = i; user_id = 0; organization_id = 0; app_id = 0 };
  rooms = [];
  is_closed = false;
}

module _ {M : Type 0} where
  -- What the goroutine of the read pump does when the connection ends: removeClient of its own
  -- struct, and then the function that Register returned.
  unfoldable pub end_session : ℕ → Hub M → Run (Hub M)
  unfolding remove_client unregister
  end_session i h = remove_client (session_client i) h >>= unregister i

  abbrev pub ended : ℕ → Hub M → Hub M
  ended i h = record h {
    clients = without_client i h.clients;
    rooms = leave_rooms [] i h.rooms;
    pipes = set_pipe i (record (h.pipes i) { is_closed = true }) h.pipes;
  }

  session-removed :
      (i : ℕ) (h : Hub M)
      → is_registered i h.clients ≡ true
      → IsOpen i h.pipes
      → remove_client (session_client i) h ≡ returns (ended i h)
  unfolding remove_client is_registered
  session-removed i h r o = rw (r, o) refl

  unregister-nobody :
      (i : ℕ) (h : Hub M) → is_registered i h.clients ≡ false → unregister i h ≡ returns h
  unfolding unregister
  unregister-nobody i h r = rw (unregistered-find i h.clients r, unregister) refl

  pub end_session-ended :
      (i : ℕ) (h : Hub M)
      → is_registered i h.clients ≡ true
      → IsOpen i h.pipes
      → end_session i h ≡ returns (ended i h)
  unfolding end_session
  end_session-ended i h r o = rw (session-removed i h r o) (unregister-nobody i (ended i h) gone)
    where
      gone : is_registered i (without_client i h.clients) ≡ false
      gone = ground (arith, is_registered-without i i h.clients)

  pub end_session-nobody :
      (i : ℕ) (h : Hub M) → is_registered i h.clients ≡ false → end_session i h ≡ returns h
  unfolding end_session remove_client is_registered
  end_session-nobody i h r = rw (r, end_session) (unregister-nobody i h r)
