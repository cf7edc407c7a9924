-- ===== src/Hub/Reached.antt =====
-- Every call on the hub, from every state that calls lead to.
use nim_near.Prelude.{
  ℕ, ◌≡◌, refl, subst, inl, inr, true, false, Option, none, some, ◌∷◌, arith, leb, ◌==◌, Bool-cases,
  Option-cases, Text, any, find, length, select,
}
use nim_near.Hub.Rooms.{Uuids}
use nim_near.Hub.State.{
  Hub, ClientInfo, Pipe, returns, set_pipe, new_pipe, add_to_found, new_hub, add_to_room,
  remove_from_room, by_id, subscribe_client, contains_text, leave_rooms,
}
use nim_near.Hub.Operations.{
  register, subscribe, unsubscribe, broadcast_to_organization, room_of, new_client, own_room,
  default_room, is_organization_room,
}
use nim_near.Hub.Clients.{
  is_registered, is_registered-update, find-is_registered, without_new, is_registered-without,
  is_subscribed-without, length-without, IsUnique-without, All-without,
}
use nim_near.Hub.Views.{is_subscribed}
use nim_near.Hub.Sound.{
  IsSound, IsSound-add_to_room, IsSound-remove_from_room, IsSound-pipes, set-IsOpen,
}
use nim_near.Hub.Safe.{
  IsSafe, broadcast-IsSafe, broadcast_each-IsSafe, send_to_client-IsSafe, unregister-IsSafe,
  close_hub-IsSafe, empty-IsSound,
}
use nim_near.Hub.Ending.{end_session, end_session-nobody, end_session-ended, ended}
use nim_near.Hub.Calls.{
  Call, registers, subscribes, unsubscribes, broadcasts, broadcasts_to, sends, unregisters, pumps,
  ends, closes, perform, popped, or_same, IsOrderly, Reach, here, next,
}

module _ (uuids : Uuids) {M : Type 0} where
  room_of-is_registered :
      (i : ℕ) (channel : Text) (h : Hub M) {k : Text}
      → room_of uuids i channel h ≡ some k
      → is_registered i h.clients ≡ true
  room_of-is_registered i channel h e = elim (Option-cases (find (by_id i) h.clients)) [
    | inl f ↦ ground (arith, e, f)
    | inr (c, f) ↦ (find-is_registered i h.clients {c = c} f).1
  ]

  subscribe-IsSafe :
      (i : ℕ) (channel : Text) (h : Hub M)
      → IsSound h
      → IsSafe (or_same uuids h (subscribe uuids i channel h))
  unfolding subscribe
  subscribe-IsSafe i channel h s = elim (Option-cases (room_of uuids i channel h)) [
    | inl e ↦ (h, rw (e, subscribe) refl, s)
    | inr (k, e) ↦ (
      add_to_room k i h,
      rw (e, subscribe) refl,
      IsSound-add_to_room k i h (room_of-is_registered i channel h e) s,
    )
  ]

  unsubscribe-IsSafe :
      (i : ℕ) (channel : Text) (h : Hub M)
      → IsSound h
      → IsSafe (or_same uuids h (unsubscribe uuids i channel h))
  unfolding unsubscribe
  unsubscribe-IsSafe i channel h s = elim (Option-cases (room_of uuids i channel h)) [
    | inl e ↦ (h, rw (e, unsubscribe) refl, s)
    | inr (k, e) ↦
        (remove_from_room k i h, rw (e, unsubscribe) refl, IsSound-remove_from_room k i h s)
  ]

  add_to_found-IsSound :
      (found : Option Text) (i : ℕ) (h : Hub M)
      → is_registered i h.clients ≡ true
      → IsSound h
      → IsSound (add_to_found found i h) × (is_registered i (add_to_found found i h).clients ≡ true)
  unfolding add_to_room
  add_to_found-IsSound none i h r s = (s, r)
  add_to_found-IsSound (some k) i h r s = (
    IsSound-add_to_room k i h r s,
    rw (is_registered-update (subscribe_client k) (λ c. refl) i i h.clients) r,
  )

  -- A new client, in no room yet.
  abbrev pub listed : ClientInfo → Hub M → Hub M
  listed info h = record h {
    clients = new_client info ∷ h.clients;
    pipes = set_pipe info.id new_pipe h.pipes;
  }

  abbrev pub admitted_hub : ClientInfo → Hub M → Hub M
  admitted_hub info h =
      add_to_found (own_room uuids info) info.id
        (add_to_found (default_room uuids info) info.id (listed info h))

  listed-IsSound :
      (info : ClientInfo) (h : Hub M)
      → is_registered info.id h.clients ≡ false
      → leb h.max_connections (length h.clients) ≡ false
      → IsSound h
      → IsSound (listed info h)
  unfolding is_registered is_subscribed any contains_text
  listed-IsSound info h fresh l s = record {
    named = s.named;
    unique = (fresh, s.unique);
    distinct = s.distinct;
    agrees = λ k i. ground (arith, s.agrees k i);
    unclosed = (refl, s.unclosed);
    open_pipes = λ i r. ground (arith, r, s.open_pipes i);
    within = ground (arith, l);
  }

  -- The channel of nobody who is registered may change.
  unlisted-IsSound :
      (i : ℕ) (p : Pipe M) (h : Hub M)
      → is_registered i h.clients ≡ false
      → IsSound h
      → IsSound (record h { pipes = set_pipe i p h.pipes })
  unlisted-IsSound i p h fresh s = record {
    named = s.named;
    unique = s.unique;
    distinct = s.distinct;
    agrees = s.agrees;
    unclosed = s.unclosed;
    open_pipes = λ j r. elim (Bool-cases (j == i)) [
      | inl e ↦ ground (arith, e, fresh, r)
      | inr e ↦ ground (arith, e, s.open_pipes j r)
    ];
    within = s.within;
  }

  abbrev made : ClientInfo → Hub M → Hub M
  made info h = record h { pipes = set_pipe info.id new_pipe h.pipes }

  -- Register of a fresh client, in its three cases.
  pub register-closed :
      (info : ClientInfo) (h : Hub M)
      → h.is_closed ≡ true
      → register uuids info (made info h) ≡ returns (made info h)
  unfolding register
  register-closed info h e = rw e refl

  pub register-full :
      (info : ClientInfo) (h : Hub M)
      → h.is_closed ≡ false
      → leb h.max_connections (length h.clients) ≡ true
      → (p : Pipe M) × (register uuids info (made info h)
          ≡ returns (record h { pipes = set_pipe info.id p (set_pipe info.id new_pipe h.pipes) }))
        × (p.is_closed ≡ true)
  unfolding register
  register-full info h e f = (record new_pipe { is_closed = true }, ground (arith, e, f), refl)

  pub register-admits :
      (info : ClientInfo) (h : Hub M)
      → h.is_closed ≡ false
      → leb h.max_connections (length h.clients) ≡ false
      → is_registered info.id h.clients ≡ false
      → register uuids info (made info h) ≡ returns (admitted_hub info h)
  unfolding register
  register-admits info h e f fresh = rw (e, f, without_new info.id h.clients fresh) refl

  admitted-IsSound :
      (info : ClientInfo) (h : Hub M) → IsSound (listed info h) → IsSound (admitted_hub info h)
  unfolding is_registered any
  admitted-IsSound info h s =
      let first =
        add_to_found-IsSound (default_room uuids info) info.id (listed info h) (ground arith) s in
      (add_to_found-IsSound (own_room uuids info) info.id
        (add_to_found (default_room uuids info) info.id (listed info h)) first.1 first.0).0

  register-IsSafe :
      (info : ClientInfo) (h : Hub M)
      → is_registered info.id h.clients ≡ false
      → IsSound h
      → IsSafe (register uuids info (made info h))
  register-IsSafe info h fresh s = elim (Bool-cases h.is_closed) [
    | inl e ↦ (made info h, register-closed info h e, unlisted-IsSound info.id new_pipe h fresh s)
    | inr e ↦ elim (Bool-cases (leb h.max_connections (length h.clients))) [
      | inl f ↦
          let r = register-full info h e f in
          (
            record (made info h) { pipes = set_pipe info.id r.0 (made info h).pipes },
            r.1,
            unlisted-IsSound info.id r.0 (made info h) fresh
                (unlisted-IsSound info.id new_pipe h fresh s),
          )
      | inr f ↦ (
        admitted_hub info h,
        register-admits info h e f fresh,
        admitted-IsSound info h (listed-IsSound info h fresh f s),
      )
    ]
  ]

  pumps-IsSound :
      (i : ℕ) (h : Hub M)
      → IsSound h
      → IsSound (record h { pipes = set_pipe i (popped uuids (h.pipes i)) h.pipes })
  pumps-IsSound i h s =
      IsSound-pipes h (set_pipe i (popped uuids (h.pipes i)) h.pipes)
        (λ j o. set-IsOpen i j (popped uuids (h.pipes i)) h.pipes (popped-opens (h.pipes i)) o) s
    where
      popped-opens : (p : Pipe M) → (popped uuids p).is_closed ≡ p.is_closed
      popped-opens p = ground arith

  ended-IsSound :
      (i : ℕ) (h : Hub M)
      → ((k : Text) → is_subscribed k i h.clients ≡ false)
      → IsSound h
      → IsSound (ended i h)
  unfolding leave_rooms
  ended-IsSound i h alone s = record {
    named = s.named;
    unique = IsUnique-without i h.clients s.unique;
    distinct = s.distinct;
    agrees = λ k j. ground (arith, is_subscribed-without k j i h.clients, alone k, s.agrees k j);
    unclosed = All-without (λ d. d.is_closed ≡ false) i h.clients s.unclosed;
    open_pipes = λ j r. ground (arith, is_registered-without j i h.clients, s.open_pipes j);
    within = omega (arith, length-without i h.clients, s.within);
  }

  end_session-IsSafe :
      (i : ℕ) (h : Hub M)
      → ((k : Text) → is_subscribed k i h.clients ≡ false)
      → IsSound h
      → IsSafe (end_session i h)
  end_session-IsSafe i h alone s = elim (Bool-cases (is_registered i h.clients)) [
    | inl r ↦ (ended i h, end_session-ended i h r (s.open_pipes i r), ended-IsSound i h alone s)
    | inr r ↦ (h, end_session-nobody i h r, s)
  ]

  -- No call panics on a sound hub, and the hub stays sound.
  pub perform-IsSafe :
      (call : Call M) (h : Hub M)
      → IsOrderly uuids call h
      → IsSound h
      → IsSafe (perform uuids call h)
  unfolding perform broadcast_to_organization
  perform-IsSafe (registers info) h f s = register-IsSafe info h f s
  perform-IsSafe (subscribes i channel) h f s = subscribe-IsSafe i channel h s
  perform-IsSafe (unsubscribes i channel) h f s = unsubscribe-IsSafe i channel h s
  perform-IsSafe (broadcasts k m) h f s = broadcast-IsSafe k m h s
  perform-IsSafe (broadcasts_to org channel m) h f s =
      broadcast_each-IsSafe uuids
        (select (λ r. is_organization_room uuids org channel r.name) h.rooms) m h s
  perform-IsSafe (sends i m) h f s = send_to_client-IsSafe i m h s
  perform-IsSafe (unregisters i) h f s = unregister-IsSafe i h s
  perform-IsSafe (pumps i) h f s = (_, refl, pumps-IsSound i h s)
  perform-IsSafe (ends i) h f s = end_session-IsSafe i h f s
  perform-IsSafe closes h f s = close_hub-IsSafe h s

  pub Reach-IsSound : {s t : Hub M} → IsSound s → Reach uuids s t → IsSound t
  Reach-IsSound h here = h
  Reach-IsSound h (next {t} {u} r call f e) =
      let r = perform-IsSafe call t f (Reach-IsSound h r) in
      subst (λ x. IsSound x) (same-returns r.1 e) r.2
    where
      same-returns :
          {a b : Hub M}
          → perform uuids call t ≡ returns a
          → perform uuids call t ≡ returns b
          → a ≡ b
      same-returns p q = cc

-- Take a hub that orderly calls have led to from an empty one: calls of the methods, of the function
-- that Register returned and of the write pump, with fresh ids for new clients, and ends of sessions
-- whose client is in no room of the hub. Then every orderly call returns: no channel is sent to or
-- closed after it was closed. The hub that it returns is sound again: the members of each room are
-- the clients that hold it, every client's channel is open, and there are no more clients than the
-- maximum. The end of a session whose client is in a room is not an orderly call.
pub Reach-never-panics :
    (uuids : Uuids) {M : Type 0} (max : ℕ) (pipes : ℕ → Pipe M) {h : Hub M}
    → Reach uuids (new_hub max pipes) h
    → (call : Call M) → IsOrderly uuids call h
    → IsSafe (perform uuids call h)
Reach-never-panics uuids max pipes {h} r call f =
    perform-IsSafe uuids call h f
      (Reach-IsSound uuids (empty-IsSound (new_hub max pipes) refl refl) r)
