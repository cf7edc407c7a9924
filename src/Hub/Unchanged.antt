-- ===== src/Hub/Unchanged.antt =====
-- The calls that leave the clients of the hub as they are.
use nim_near.Prelude.{
  ℕ, ◌≡◌, refl, inl, inr, not, ◌||◌, List, [], ◌∷◌, arith, Bool-cases, Text, any, ◌∙◌,
}
use nim_near.Hub.State.{
  Hub, Room, Pipe, Run, panics, returns, ◌>>=◌, with_pipes, by_id, broadcast, broadcast_each,
  send_each, send_to_client, push, members_of,
}

pub bind-returns :
    {A B : Type 0} (run : Run A) (f : A → Run B) {b : B}
    → run >>= f ≡ returns b
    → (a : A) × (run ≡ returns a) × (f a ≡ returns b)
bind-returns panics f e = cc
bind-returns (returns a) f e = (a, refl, e)

module _ {M : Type 0} where
  pub pipes-clients :
      (run : Run (ℕ → Pipe M)) (h : Hub M) {t : Hub M}
      → run >>= with_pipes h ≡ returns t
      → t.clients ≡ h.clients
  pipes-clients panics h e = cc
  pipes-clients (returns p) h e = ground (arith, e)

  pub broadcast-clients :
      (k : Text) (m : M) (h : Hub M) {t : Hub M}
      → broadcast k m h ≡ returns t
      → t.clients ≡ h.clients
  unfolding broadcast
  broadcast-clients k m h {t} e = elim (Bool-cases h.is_closed) [
    | inl c ↦ ground (arith, c, e)
    | inr c ↦
        pipes-clients (send_each (members_of k h.rooms) m h.pipes) h {t = t} (ground (arith, c, e))
  ]

  pub send_to_client-clients :
      (i : ℕ) (m : M) (h : Hub M) {t : Hub M}
      → send_to_client i m h ≡ returns t
      → t.clients ≡ h.clients
  unfolding send_to_client
  send_to_client-clients i m h {t} e =
      elim (Bool-cases (not (any (by_id i) h.clients) || h.is_closed)) [
        | inl c ↦ ground (arith, c, e)
        | inr c ↦ pipes-clients (push i m h.pipes) h {t = t} (ground (arith, c, e))
      ]

  pub broadcast_each-clients :
      (rs : List Room) (m : M) (h : Hub M) {t : Hub M}
      → broadcast_each rs m h ≡ returns t
      → t.clients ≡ h.clients
  unfolding broadcast_each
  broadcast_each-clients [] m h e = ground (arith, e)
  broadcast_each-clients (r ∷ rs) m h {t} e =
      let b = bind-returns (broadcast r.name m h) (broadcast_each rs m) {b = t} e in
      broadcast_each-clients rs m b.0 {t = t} b.2 ∙ broadcast-clients r.name m h {t = b.0} b.1
