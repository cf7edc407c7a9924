-- ===== src/Hub/Safe.antt =====
-- No call panics on a hub that is sound, and each one leaves it sound.
use nim_near.Prelude.{
  ℕ, ◌≡◌, refl, sym, subst, inl, inr, true, false, not, ◌||◌, Option, none, some, List, [], ◌∷◌,
  arith, Bool-cases, Option-cases, Text, any, All, find, find-All,
}
use nim_near.Realtime.{contains_id}
use nim_near.Hub.Rooms.{Uuids}
use nim_near.Hub.State.{
  Hub, Client, Room, Pipe, Run, returns, send_each, broadcast_each, set_pipe, pushed, close_each,
  by_id, client_id, broadcast, send_to_client, remove_client, unregister, close_hub, members_of,
  leave_rooms, without_client,
}
use nim_near.Hub.Views.{is_member, is_subscribed, IsNamed-leave_rooms, is_member-leave_rooms}
use nim_near.Hub.Distinct.{AreDistinct-leave_rooms}
use nim_near.Hub.Clients.{
  is_registered, is_registered-without, is_subscribed-without, length-without, IsUnique-without,
  All-without, find-is_subscribed, find-is_registered, IsUnique,
}
use nim_near.Hub.Sound.{
  IsOpen, ArePipesOpen, IsSound, IsSound-pipes, push-opens, set-IsOpen, send_each-opens,
  member-IsOpen,
}
use nim_near.Hub.Calls.{or_same}

module _ {M : Type 0} where
  -- It returns, and what it returns is sound.
  abbrev pub IsSafe : Run (Hub M) → Type 0
  IsSafe run = (h : Hub M) × (run ≡ returns h) × IsSound h

  pub broadcast-sent :
      (k : Text) (m : M) (h : Hub M) (sent : ℕ → Pipe M)
      → h.is_closed ≡ false
      → send_each (members_of k h.rooms) m h.pipes ≡ returns sent
      → broadcast k m h ≡ returns (record h { pipes = sent })
  unfolding broadcast
  broadcast-sent k m h sent e f = rw (e, f) refl

  pub broadcast-IsSafe : (k : Text) (m : M) (h : Hub M) → IsSound h → IsSafe (broadcast k m h)
  unfolding broadcast is_member
  broadcast-IsSafe k m h s = elim (Bool-cases h.is_closed) [
    | inl e ↦ (h, rw e refl, s)
    | inr e ↦
        let r = send_each-opens (members_of k h.rooms) m h.pipes (λ i c. member-IsOpen h k i s c) in
        (record h { pipes = r.0 }, broadcast-sent k m h r.0 e r.1, IsSound-pipes h r.0 r.2 s)
  ]

  pushed-IsSound :
      (i : ℕ) (m : M) (h : Hub M)
      → IsSound h
      → IsSound (record h { pipes = set_pipe i (pushed m (h.pipes i)) h.pipes })
  pushed-IsSound i m h s =
      IsSound-pipes h (set_pipe i (pushed m (h.pipes i)) h.pipes)
        (λ j o. set-IsOpen i j (pushed m (h.pipes i)) h.pipes (ground arith) o) s

  pub send_to_client-IsSafe :
      (i : ℕ) (m : M) (h : Hub M) → IsSound h → IsSafe (send_to_client i m h)
  unfolding send_to_client is_registered
  send_to_client-IsSafe i m h s = elim (Bool-cases (not (any (by_id i) h.clients) || h.is_closed)) [
    | inl e ↦ (h, rw e refl, s)
    | inr e ↦ (
      record h { pipes = set_pipe i (pushed m (h.pipes i)) h.pipes },
      rw (e, push-opens i m h.pipes (s.open_pipes i (ground (arith, e)))) refl,
      pushed-IsSound i m h s,
    )
  ]

  pub empty-IsSound : (h : Hub M) → h.clients ≡ [] → h.rooms ≡ [] → IsSound h
  unfolding is_member is_subscribed is_registered any contains_id members_of
  empty-IsSound h e f = record {
    named = rw f tt;
    unique = rw e tt;
    distinct = rw f tt;
    agrees = λ k i. rw (e, f) refl;
    unclosed = rw e tt;
    open_pipes = λ i r. ground (arith, e, r);
    within = rw e (omega arith);
  }

  -- What removing the hub's own struct of a client does.
  abbrev removed : Client → Hub M → Hub M
  removed c h = record h {
    clients = without_client (client_id c) h.clients;
    rooms = leave_rooms c.rooms (client_id c) h.rooms;
    pipes = set_pipe (client_id c) (record (h.pipes (client_id c)) { is_closed = true }) h.pipes;
  }

  removed-IsSound :
      (c : Client) (h : Hub M)
      → find (by_id (client_id c)) h.clients ≡ some c
      → IsSound h
      → IsSound (removed c h)
  removed-IsSound c h e s = record {
    named = IsNamed-leave_rooms c.rooms (client_id c) h.rooms s.named;
    unique = IsUnique-without (client_id c) h.clients s.unique;
    distinct = AreDistinct-leave_rooms c.rooms (client_id c) h.rooms s.distinct;
    agrees = λ k i. ground (
      arith,
      is_member-leave_rooms c.rooms k i (client_id c) h.rooms s.named,
      is_subscribed-without k i (client_id c) h.clients,
      find-is_subscribed k (client_id c) h.clients {c = c} s.unique e,
      s.agrees k i,
    );
    unclosed = All-without (λ d. d.is_closed ≡ false) (client_id c) h.clients s.unclosed;
    open_pipes =
        λ i r. ground (arith, is_registered-without i (client_id c) h.clients, s.open_pipes i);
    within = omega (arith, length-without (client_id c) h.clients, s.within);
  }

  remove_client-own :
      (c : Client) (h : Hub M)
      → is_registered (client_id c) h.clients ≡ true
      → c.is_closed ≡ false
      → IsOpen (client_id c) h.pipes
      → remove_client c h ≡ returns (removed c h)
  unfolding remove_client is_registered
  remove_client-own c h r e o = rw (r, e, o) refl

  -- The function that Register returned removes the client and closes its channel.
  pub unregister-found :
      (i : ℕ) (c : Client) (h : Hub M)
      → find (by_id i) h.clients ≡ some c
      → IsSound h
      → (unregister i h ≡ returns (removed c h)) × IsSound (removed c h)
  unfolding unregister
  unregister-found i c h e s = (
    rw (e, unregister)
        (remove_client-own c h own.1
          (find-All (λ d. d.is_closed ≡ false) (by_id i) h.clients s.unclosed e)
          (s.open_pipes (client_id c) own.1)),
    removed-IsSound c h own.0 s,
  )
    where
      own :
          (find (by_id (client_id c)) h.clients ≡ some c)
          × (is_registered (client_id c) h.clients ≡ true)
      own =
          let f = find-is_registered i h.clients {c = c} e in
          (subst (λ j. find (by_id j) h.clients ≡ some c) (sym f.0) e, rw f.0 f.1)

  pub unregister-IsSafe : (i : ℕ) (h : Hub M) → IsSound h → IsSafe (unregister i h)
  unfolding unregister
  unregister-IsSafe i h s = elim (Option-cases (find (by_id i) h.clients)) [
    | inl e ↦ (h, rw (e, unregister) refl, s)
    | inr (c, e) ↦ let r = unregister-found i c h e s in (removed c h, r.0, r.1)
  ]

  -- Close: every client's channel is closed once, since the ids are distinct.
  close_each-closes :
      (cs : List Client) (pipes : ℕ → Pipe M)
      → IsUnique cs
      → All (λ (c : Client). c.is_closed ≡ false) cs
      → ArePipesOpen cs pipes
      → (closed : ℕ → Pipe M) × (close_each cs pipes ≡ returns closed)
  unfolding close_each is_registered
  close_each-closes [] pipes u a o = (pipes, refl)
  close_each-closes (c ∷ cs) pipes u a o =
      let rest =
        close_each-closes cs
          (set_pipe (client_id c) (record (pipes (client_id c)) { is_closed = true }) pipes) u.1 a.1
          (λ i r. ground (arith, u.0, o i, r)) in
      (rest.0, rw (a.0, o (client_id c) (ground arith)) rest.1)

  pub close_hub-IsSafe : (h : Hub M) → IsSound h → IsSafe (close_hub h)
  unfolding close_hub
  close_hub-IsSafe h s =
      let r = close_each-closes h.clients h.pipes s.unique s.unclosed s.open_pipes in
      (
        record h { clients = []; rooms = []; is_closed = true; pipes = r.0 },
        rw (r.1) refl,
        empty-IsSound (record h { clients = []; rooms = []; is_closed = true; pipes = r.0 }) refl
            refl,
      )

  module _ (uuids : Uuids) where
    pub broadcast_each-IsSafe :
        (rs : List Room) (m : M) (h : Hub M) → IsSound h → IsSafe (broadcast_each rs m h)
    unfolding broadcast_each
    broadcast_each-IsSafe [] m h s = (h, refl, s)
    broadcast_each-IsSafe (r ∷ rs) m h s =
        let first = broadcast-IsSafe r.name m h s in
        let rest = broadcast_each-IsSafe rs m first.0 first.2 in
        (rest.0, rw (first.1) rest.1, rest.2)

    pub or_same-IsSafe :
        (h : Hub M) (r : Option (Hub M))
        → IsSound h
        → ((t : Hub M) → r ≡ some t → IsSound t)
        → IsSafe (or_same uuids h r)
    or_same-IsSafe h none s f = (h, refl, s)
    or_same-IsSafe h (some t) s f = (t, refl, f t refl)
