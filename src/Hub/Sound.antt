-- ===== src/Hub/Sound.antt =====
-- The invariant of the hub, and what the internal steps of its methods do to it.
use nim_near.Prelude.{
  ℕ, ◌≡◌, refl, inl, inr, true, false, List, [], ◌∷◌, arith, ◌≤◌, Bool-cases, Text, All,
  All-update_where, length,
}
use nim_near.Realtime.{contains_id}
use nim_near.Hub.State.{
  Hub, Client, Pipe, returns, send_each, push, set_pipe, pushed, by_id, add_to_room,
  remove_from_room, subscribe_client, unsubscribe_client,
}
use nim_near.Hub.Views.{
  is_member, is_subscribed, IsNamed, IsNamed-join, IsNamed-leave, is_member-join, is_member-leave,
}
use nim_near.Hub.Distinct.{AreDistinct, AreDistinct-join, AreDistinct-leave}
use nim_near.Hub.Clients.{
  is_registered, is_registered-update, is_subscribed-add, is_subscribed-drop, is_subscribed-new,
  length-update, IsUnique, IsUnique-update,
}

module _ {M : Type 0} where
  abbrev pub IsOpen : ℕ → (ℕ → Pipe M) → Type 0
  IsOpen i pipes = (pipes i).is_closed ≡ false

  abbrev pub ArePipesOpen : List Client → (ℕ → Pipe M) → Type 0
  ArePipesOpen cs pipes = (i : ℕ) → is_registered i cs ≡ true → IsOpen i pipes

  -- The names of the rooms, their members and the ids of the clients are distinct, the members of a
  -- room are the clients that hold it, every client's channel is open, and there are no more
  -- clients than the maximum.
  pub record IsSound (h : Hub M) : Type 0 where
    pub named : IsNamed h.rooms
    pub unique : IsUnique h.clients
    pub distinct : AreDistinct h.rooms
    pub agrees : (k : Text) (i : ℕ) → is_member k i h.rooms ≡ is_subscribed k i h.clients
    pub unclosed : All (λ (c : Client). c.is_closed ≡ false) h.clients
    pub open_pipes : ArePipesOpen h.clients h.pipes
    pub within : length h.clients ≤ h.max_connections

  pub IsSound-add_to_room :
      (k : Text) (i : ℕ) (h : Hub M)
      → is_registered i h.clients ≡ true
      → IsSound h
      → IsSound (add_to_room k i h)
  unfolding add_to_room
  IsSound-add_to_room k i h r s = record {
    named = IsNamed-join k i h.rooms s.named;
    unique = IsUnique-update (subscribe_client k) (λ c. refl) i h.clients s.unique;
    distinct = AreDistinct-join k i h.rooms s.distinct;
    agrees = λ t j. ground (
      arith,
      is_member-join t k j i h.rooms,
      is_subscribed-add t k j i h.clients,
      r,
      s.agrees t j,
    );
    unclosed = All-update_where (by_id i) (subscribe_client k) h.clients (λ c e u. u) s.unclosed;
    open_pipes = λ j e.
        s.open_pipes j
          (ground (arith, is_registered-update (subscribe_client k) (λ c. refl) j i h.clients));
    within = ground (arith, length-update (subscribe_client k) (λ c. refl) i h.clients, s.within);
  }

  pub IsSound-remove_from_room :
      (k : Text) (i : ℕ) (h : Hub M) → IsSound h → IsSound (remove_from_room k i h)
  unfolding remove_from_room unsubscribe_client
  IsSound-remove_from_room k i h s = record {
    named = IsNamed-leave k i h.rooms s.named;
    unique = IsUnique-update (unsubscribe_client k) (λ c. refl) i h.clients s.unique;
    distinct = AreDistinct-leave k i h.rooms s.distinct;
    agrees = λ t j. ground (
      arith,
      is_member-leave t k j i h.rooms s.named,
      is_subscribed-drop t k j i h.clients,
      s.agrees t j,
    );
    unclosed = All-update_where (by_id i) (unsubscribe_client k) h.clients (λ c e u. u) s.unclosed;
    open_pipes = λ j e.
        s.open_pipes j
          (ground (arith, is_registered-update (unsubscribe_client k) (λ c. refl) j i h.clients));
    within = ground (arith, length-update (unsubscribe_client k) (λ c. refl) i h.clients, s.within);
  }

  -- New channels that are open where the old ones were.
  pub IsSound-pipes :
      (h : Hub M) (pipes : ℕ → Pipe M)
      → ((i : ℕ) → IsOpen i h.pipes → IsOpen i pipes)
      → IsSound h
      → IsSound (record h { pipes = pipes })
  IsSound-pipes h pipes keeps s = record {
    named = s.named;
    unique = s.unique;
    distinct = s.distinct;
    agrees = s.agrees;
    unclosed = s.unclosed;
    open_pipes = λ i e. keeps i (s.open_pipes i e);
    within = s.within;
  }

  pub push-opens :
      (i : ℕ) (m : M) (pipes : ℕ → Pipe M)
      → IsOpen i pipes
      → push i m pipes ≡ returns (set_pipe i (pushed m (pipes i)) pipes)
  push-opens i m pipes h = rw h refl

  pushed-opens : (m : M) (p : Pipe M) → (pushed m p).is_closed ≡ p.is_closed
  pushed-opens m p = ground arith

  pub set-IsOpen :
      (i j : ℕ) (p : Pipe M) (pipes : ℕ → Pipe M)
      → p.is_closed ≡ (pipes i).is_closed
      → IsOpen j pipes
      → IsOpen j (set_pipe i p pipes)
  set-IsOpen i j p pipes e o = ground arith

  -- Sends to open channels do not panic, and what each channel holds afterwards.
  pub send_each-opens :
      (is : List ℕ) (m : M) (pipes : ℕ → Pipe M)
      → ((i : ℕ) → contains_id i is ≡ true → IsOpen i pipes)
      → (sent : ℕ → Pipe M) × (send_each is m pipes ≡ returns sent)
        × ((i : ℕ) → IsOpen i pipes → IsOpen i sent)
  unfolding send_each contains_id
  send_each-opens [] m pipes h = (pipes, refl, λ i o. o)
  send_each-opens (i ∷ is) m pipes h =
      let rest =
        send_each-opens is m (set_pipe i (pushed m (pipes i)) pipes)
          (λ j e. stays j (h j (ground (arith, e)))) in
      (rest.0, rw (push-opens i m pipes (h i (ground arith))) rest.1, λ j o. rest.2 j (stays j o))
    where
      stays : (j : ℕ) → IsOpen j pipes → IsOpen j (set_pipe i (pushed m (pipes i)) pipes)
      stays j o = set-IsOpen i j (pushed m (pipes i)) pipes (pushed-opens m (pipes i)) o

  pub member-IsOpen :
      (h : Hub M) (k : Text) (i : ℕ) → IsSound h → is_member k i h.rooms ≡ true → IsOpen i h.pipes
  member-IsOpen h k i s e = elim (Bool-cases (is_registered i h.clients)) [
    | inl r ↦ s.open_pipes i r
    | inr r ↦ ground (arith, s.agrees k i, is_subscribed-new k i h.clients r)
  ]
