-- ===== src/Hub/Delivered.antt =====
-- Broadcast against its specification: every client that is subscribed to the room is sent the
-- message once.
use nim_near.Prelude.{
  ℕ, ◌≡◌, refl, inl, inr, Bool, true, false, List, [], ◌∷◌, arith, ◌==◌, if◌then◌else◌, Bool-cases,
  Text,
}
use nim_near.Realtime.{contains_id}
use nim_near.Hub.State.{Hub, Pipe, returns, send_each, pushed, set_pipe, broadcast, members_of}
use nim_near.Hub.Views.{is_member, is_subscribed}
use nim_near.Hub.Distinct.{IsDistinct, members_of-IsDistinct}
use nim_near.Hub.Sound.{IsOpen, IsSound, IsSound-pipes, push-opens, set-IsOpen, member-IsOpen}
use nim_near.Hub.Safe.{broadcast-sent}

module _ {M : Type 0} where
  -- What the channels hold after one message to the clients of a set.
  abbrev pub Sends : (ℕ → Bool) → M → (ℕ → Pipe M) → (ℕ → Pipe M) → Type 0
  Sends who m before after = (i : ℕ) → after i ≡ (if who i then pushed m (before i) else before i)

  send_each-Sends :
      (is : List ℕ) (m : M) (pipes : ℕ → Pipe M)
      → IsDistinct is
      → ((i : ℕ) → contains_id i is ≡ true → IsOpen i pipes)
      → (sent : ℕ → Pipe M) × (send_each is m pipes ≡ returns sent)
        × Sends (λ i. contains_id i is) m pipes sent
  unfolding send_each contains_id
  send_each-Sends [] m pipes d h = (pipes, refl, λ i. refl)
  send_each-Sends (i ∷ is) m pipes d h =
      let rest = send_each-Sends is m (set_pipe i (pushed m (pipes i)) pipes) d.1 (λ j e.
        set-IsOpen i j (pushed m (pipes i)) pipes (ground arith) (h j (ground (arith, e)))) in
      (
        rest.0,
        rw (push-opens i m pipes (h i (ground arith))) rest.1,
        λ j. skip-head j (d.0) (rest.2 j),
      )
    where
      skip-head :
          {p : Pipe M} (j : ℕ)
          → contains_id i is ≡ false
          → p ≡ (
              if contains_id j is
              then pushed m (set_pipe i (pushed m (pipes i)) pipes j)
              else set_pipe i (pushed m (pipes i)) pipes j)
          → p ≡ (if contains_id j (i ∷ is) then pushed m (pipes j) else pipes j)
      skip-head j a e = elim (Bool-cases (j == i)) [
        | inl f ↦ ground (arith, a, e, f)
        | inr f ↦ ground (arith, a, e, f)
      ]

  Sends-IsOpen :
      (b : Bool) (m : M) (p : Pipe M) {q : Pipe M}
      → q ≡ (if b then pushed m p else p)
      → p.is_closed ≡ false
      → q.is_closed ≡ false
  Sends-IsOpen b m p {q} e o = ground arith

  -- The same clients and rooms.
  abbrev pub KeepsRooms : Hub M → Hub M → Type 0
  KeepsRooms h t = (t.clients ≡ h.clients) × (t.rooms ≡ h.rooms) × (t.is_closed ≡ h.is_closed)

  pub broadcast-Sends :
      (k : Text) (m : M) (h : Hub M)
      → IsSound h
      → h.is_closed ≡ false
      → (t : Hub M) × (broadcast k m h ≡ returns t)
        × Sends (λ i. is_subscribed k i h.clients) m h.pipes t.pipes
        × KeepsRooms h t
        × IsSound t
  unfolding is_member
  broadcast-Sends k m h s e =
      let r =
        send_each-Sends (members_of k h.rooms) m h.pipes
          (members_of-IsDistinct k h.rooms s.distinct) (λ i c. member-IsOpen h k i s c) in
      (
        record h { pipes = r.0 },
        broadcast-sent k m h r.0 e r.1,
        λ i. rw (← s.agrees k i) (r.2 i),
        (refl, refl, refl),
        IsSound-pipes h r.0 (λ i o. Sends-IsOpen _ m (h.pipes i) (r.2 i) o) s,
      )
