-- ===== src/Hub/Private.antt =====
-- Every call keeps the rooms of a user to that user's clients.
use nim_near.Prelude.{
  ℕ, ◌≡◌, refl, inl, inr, true, false, Option, none, some, [], arith, leb, Bool-cases, Option-cases,
  Text, All-update_where, ap, find, any, length, select, ◌∙◌,
}
use nim_near.Hub.Rooms.{Uuids, IsUuids, user_room, payments_channel}
use nim_near.Hub.State.{
  Hub, Client, ClientInfo, returns, set_pipe, new_pipe, by_id, client_id, subscribe_client,
  unsubscribe_client, add_to_room, remove_from_room, add_to_found, remove_client, unregister,
  close_hub, close_each, close_send, without_client, leave_rooms,
}
use nim_near.Hub.Operations.{
  register, subscribe, unsubscribe, broadcast_to_organization, room_of, room_for_client, own_room,
  default_room, is_organization_room,
}
use nim_near.Hub.Clients.{is_registered, All-without}
use nim_near.Hub.Ending.{end_session, end_session-ended, end_session-nobody}
use nim_near.Hub.Sound.{IsSound}
use nim_near.Hub.Reached.{
  Reach-IsSound, register-full, register-admits, register-closed, listed, admitted_hub,
}
use nim_near.Hub.Calls.{
  Call, registers, subscribes, unsubscribes, broadcasts, broadcasts_to, sends, unregisters, pumps,
  ends, closes, perform, or_same, IsOrderly, Reach, here, next,
}
use nim_near.Hub.Owned.{
  AreOwned, OwnsRooms, HaveInfo, HaveInfo-new, HaveInfo-found, HaveInfo-update, AreOwned-add,
  owns-unsubscribed, room_for_client-owner, own_room-owner, default_room-other,
  new_client-OwnsRooms,
}
use nim_near.Hub.Unchanged.{
  pipes-clients, broadcast-clients, send_to_client-clients, broadcast_each-clients,
}

module _ {M : Type 0} where
  abbrev without : Client → Hub M → Hub M
  without c h = record h {
    clients = without_client (client_id c) h.clients;
    rooms = leave_rooms c.rooms (client_id c) h.rooms;
  }

  module _ (uuids : Uuids) (laws : IsUuids uuids) where
    remove_client-AreOwned :
        (c : Client) (h : Hub M) {t : Hub M}
        → remove_client c h ≡ returns t
        → AreOwned uuids laws h.clients
        → AreOwned uuids laws t.clients
    unfolding remove_client
    remove_client-AreOwned c h {t} e o = elim (Bool-cases (any (by_id (client_id c)) h.clients)) [
      | inl f ↦
          rw (pipes-clients (close_send c h.pipes) (without c h) {t = t} (ground (arith, f, e)))
            (All-without (OwnsRooms uuids laws) (client_id c) h.clients o)
      | inr f ↦ ground (arith, e, f, o)
    ]

    unregister-AreOwned :
        (i : ℕ) (h : Hub M) {t : Hub M}
        → unregister i h ≡ returns t
        → AreOwned uuids laws h.clients
        → AreOwned uuids laws t.clients
    unfolding unregister
    unregister-AreOwned i h {t} e o = elim (Option-cases (find (by_id i) h.clients)) [
      | inl f ↦ ground (arith, e, f, o)
      | inr (c, f) ↦ remove_client-AreOwned c h {t = t} (ground (arith, e, f)) o
    ]

    close_hub-AreOwned :
        (h : Hub M) {t : Hub M} → close_hub h ≡ returns t → AreOwned uuids laws t.clients
    unfolding close_hub
    close_hub-AreOwned h {t} e =
        rw
          (pipes-clients (close_each h.clients h.pipes)
            (record h { clients = []; rooms = []; is_closed = true }) {t = t} e)
          tt

    subscribe-AreOwned :
        (i : ℕ) (channel : Text) (h : Hub M) {t : Hub M}
        → or_same uuids h (subscribe uuids i channel h) ≡ returns t
        → IsSound h
        → AreOwned uuids laws h.clients
        → AreOwned uuids laws t.clients
    unfolding subscribe
    subscribe-AreOwned i channel h {t} e s o = elim (Option-cases (find (by_id i) h.clients)) [
      | inl f ↦ ground (arith, e, f, o)
      | inr (c, f) ↦ elim (Option-cases (room_for_client uuids c.info channel)) [
        | inl g ↦ ground (arith, e, f, g, o)
        | inr (k, g) ↦ rw (ap (λ x. x.clients) (joined c k f g)) (
            AreOwned-add uuids laws k i c.info h.clients
              (λ u x. room_for_client-owner uuids laws c.info channel u (g ∙ ap some x))
              (HaveInfo-found i h.clients {c = c} s.unique f) o)
      ]
    ]
      where
        joined :
            (c : Client) (k : Text)
            → find (by_id i) h.clients ≡ some c
            → room_for_client uuids c.info channel ≡ some k
            → t ≡ add_to_room k i h
        joined c k f g = ground (arith, e, f, g)

    unsubscribe-AreOwned :
        (i : ℕ) (channel : Text) (h : Hub M) {t : Hub M}
        → or_same uuids h (unsubscribe uuids i channel h) ≡ returns t
        → AreOwned uuids laws h.clients
        → AreOwned uuids laws t.clients
    unfolding unsubscribe remove_from_room
    unsubscribe-AreOwned i channel h {t} e o = elim (Option-cases (room_of uuids i channel h)) [
      | inl f ↦ ground (arith, e, f, o)
      | inr (k, f) ↦ rw (left k f) (
          All-update_where (by_id i) (unsubscribe_client k) h.clients
            (λ c m p. owns-unsubscribed uuids laws k c p) o)
    ]
      where
        left :
            (k : Text)
            → room_of uuids i channel h ≡ some k
            → t.clients ≡ (remove_from_room k i h).clients
        left k f = ground (arith, e, f)

    add_to_found-AreOwned :
        (found : Option Text) (info : ClientInfo) (h : Hub M)
        → ((u : ℕ) → found ≡ some (user_room uuids u payments_channel) → info.user_id ≡ u)
        → HaveInfo info.id info h.clients
        → AreOwned uuids laws h.clients
        → AreOwned uuids laws (add_to_found found info.id h).clients
          × HaveInfo info.id info (add_to_found found info.id h).clients
    unfolding add_to_room
    add_to_found-AreOwned none info h fits same o = (o, same)
    add_to_found-AreOwned (some k) info h fits same o = (
      AreOwned-add uuids laws k info.id info h.clients (λ u x. fits u (ap some x)) same o,
      HaveInfo-update (subscribe_client k) (λ c. refl) info.id info.id info h.clients same,
    )

    register-AreOwned :
        (info : ClientInfo) (h : Hub M) {t : Hub M}
        → is_registered info.id h.clients ≡ false
        → register uuids info (record h { pipes = set_pipe info.id new_pipe h.pipes }) ≡ returns t
        → AreOwned uuids laws h.clients
        → AreOwned uuids laws t.clients
    register-AreOwned info h {t} fresh e o = elim (Bool-cases h.is_closed) [
      | inl c ↦ ground (arith, register-closed uuids info h c, e, o)
      | inr c ↦ elim (Bool-cases (leb h.max_connections (length h.clients))) [
        | inl f ↦ let r = register-full uuids info h c f in ground (arith, r.1, e, o)
        | inr f ↦ rw (admitted c f) all.0
      ]
    ]
      where
        first :
            AreOwned uuids laws
              (add_to_found (default_room uuids info) info.id (listed uuids info h)).clients
            × HaveInfo info.id info
                (add_to_found (default_room uuids info) info.id (listed uuids info h)).clients
        first =
            add_to_found-AreOwned (default_room uuids info) info (listed uuids info h)
              (default_room-other uuids laws info)
              ((λ m. refl), HaveInfo-new info.id info h.clients fresh)
              (new_client-OwnsRooms uuids laws info, o)

        all :
            AreOwned uuids laws (admitted_hub uuids info h).clients
            × HaveInfo info.id info (admitted_hub uuids info h).clients
        all =
            add_to_found-AreOwned (own_room uuids info) info
              (add_to_found (default_room uuids info) info.id (listed uuids info h))
              (own_room-owner uuids laws info) first.1 first.0

        admitted :
            h.is_closed ≡ false
            → leb h.max_connections (length h.clients) ≡ false
            → t ≡ admitted_hub uuids info h
        admitted c f = ground (arith, register-admits uuids info h c f fresh, e)

    end_session-AreOwned :
        (i : ℕ) (h : Hub M) {t : Hub M}
        → end_session i h ≡ returns t
        → IsSound h
        → AreOwned uuids laws h.clients
        → AreOwned uuids laws t.clients
    end_session-AreOwned i h {t} e s o = elim (Bool-cases (is_registered i h.clients)) [
      | inl r ↦ rw (left r) (All-without (OwnsRooms uuids laws) i h.clients o)
      | inr r ↦ rw (same r) o
    ]
      where
        left : is_registered i h.clients ≡ true → t.clients ≡ without_client i h.clients
        left r = ground (arith, end_session-ended i h r (s.open_pipes i r), e)

        same : is_registered i h.clients ≡ false → t.clients ≡ h.clients
        same r = ground (arith, end_session-nobody i h r, e)

    perform-AreOwned :
        (call : Call M) (h : Hub M) {t : Hub M}
        → IsOrderly uuids call h
        → perform uuids call h ≡ returns t
        → IsSound h
        → AreOwned uuids laws h.clients
        → AreOwned uuids laws t.clients
    unfolding perform broadcast_to_organization
    perform-AreOwned (registers info) h {t} f e s o = register-AreOwned info h {t = t} f e o
    perform-AreOwned (subscribes i channel) h {t} f e s o =
        subscribe-AreOwned i channel h {t = t} e s o
    perform-AreOwned (unsubscribes i channel) h {t} f e s o =
        unsubscribe-AreOwned i channel h {t = t} e o
    perform-AreOwned (broadcasts k m) h {t} f e s o = rw (broadcast-clients k m h {t = t} e) o
    perform-AreOwned (broadcasts_to org channel m) h {t} f e s o =
        rw
          (broadcast_each-clients
            (select (λ r. is_organization_room uuids org channel r.name) h.rooms) m h {t = t} e)
          o
    perform-AreOwned (sends i m) h {t} f e s o = rw (send_to_client-clients i m h {t = t} e) o
    perform-AreOwned (unregisters i) h {t} f e s o = unregister-AreOwned i h {t = t} e o
    perform-AreOwned (pumps i) h {t} f e s o = ground (arith, e, o)
    perform-AreOwned (ends i) h {t} f e s o = end_session-AreOwned i h {t = t} e s o
    perform-AreOwned closes h {t} f e s o = close_hub-AreOwned h {t = t} e

    pub Reach-AreOwned :
        {s t : Hub M}
        → IsSound s
        → AreOwned uuids laws s.clients
        → Reach uuids s t
        → AreOwned uuids laws t.clients
    Reach-AreOwned h o here = o
    Reach-AreOwned h o (next {t} {u} r call f e) =
        perform-AreOwned call t {t = u} f e (Reach-IsSound uuids h r) (Reach-AreOwned h o r)
