-- ===== src/Hub/Addressed.antt =====
-- DeliverToUsers against its specification: the clients of the addressed users are sent the message
-- once.
use nim_near.Prelude.{
  ℕ, ◌≡◌, refl, ap, ◌∙◌, inl, inr, Bool, true, false, not, ◌&&◌, ◌||◌, some, List, [], ◌∷◌, arith,
  ◌==◌, if◌then◌else◌, Bool-cases, any, All, trim_space,
}
use nim_near.Realtime.{contains_id, unique_from}
use nim_near.Hub.Rooms.{
  Uuids, IsUuids, user_room, build_user_room_key, payments_channel, is_channel_name,
}
use nim_near.Hub.State.{Hub, Client, Pipe, Run, returns, by_id, contains_text, pushed}
use nim_near.Hub.Views.{is_subscribed}
use nim_near.Hub.Distinct.{IsDistinct}
use nim_near.Hub.Clients.{IsUnique, is_registered, is_subscribed-new}
use nim_near.Hub.Sound.{IsSound}
use nim_near.Hub.Delivered.{Sends, KeepsRooms, broadcast-Sends}
use nim_near.Hub.Owned.{AreOwned}
use nim_near.Hub.Bridge.{deliver_each}

-- What UniqueUserIDs keeps.
pub unique_from-contains :
    (v : ℕ) (seen us : List ℕ)
    → contains_id v (unique_from seen us)
      ≡ (contains_id v us && (not (v == 0) && not (contains_id v seen)))
unfolding unique_from contains_id
unique_from-contains v seen [] = ground arith
unique_from-contains v seen (u ∷ us) =
    ground (arith, unique_from-contains v (u ∷ seen) us, unique_from-contains v seen us)

pub unique_from-IsDistinct : (seen us : List ℕ) → IsDistinct (unique_from seen us)
unfolding unique_from contains_id
unique_from-IsDistinct seen [] = tt
unique_from-IsDistinct seen (u ∷ us) = ground (
  arith,
  unique_from-contains u (u ∷ seen) us,
  unique_from-IsDistinct (u ∷ seen) us,
  unique_from-IsDistinct seen us,
)

pub unique_from-nonzero : (seen us : List ℕ) → All (λ u. (u == 0) ≡ false) (unique_from seen us)
unfolding unique_from
unique_from-nonzero seen [] = tt
unique_from-nonzero seen (u ∷ us) =
    ground (arith, unique_from-nonzero (u ∷ seen) us, unique_from-nonzero seen us)

module _ (uuids : Uuids) where
  -- The client is one of an addressed user, and is in that user's payments room.
  unfoldable pub is_addressed : List ℕ → ℕ → List Client → Bool
  unfolding any contains_id contains_text
  is_addressed ids i cs =
      any
        (λ c.
          by_id i c
          && (contains_id c.info.user_id ids
              && (not (c.info.user_id == 0)
                  && contains_text (user_room uuids c.info.user_id payments_channel) c.rooms)))
        cs

  is_addressed-new :
      (ids : List ℕ) (i : ℕ) (cs : List Client)
      → is_registered i cs ≡ false
      → is_addressed ids i cs ≡ false
  unfolding is_addressed is_registered any
  is_addressed-new ids i [] h = refl
  is_addressed-new ids i (c ∷ cs) h = ground (arith, is_addressed-new ids i cs)

  -- Only the nonzero ids matter.
  pub is_addressed-same :
      (ids others : List ℕ) (i : ℕ) (cs : List Client)
      → ((v : ℕ) → contains_id v others ≡ (contains_id v ids && not (v == 0)))
      → is_addressed others i cs ≡ is_addressed ids i cs
  unfolding is_addressed any
  is_addressed-same ids others i [] h = refl
  is_addressed-same ids others i (c ∷ cs) h =
      ground (arith, h c.info.user_id, is_addressed-same ids others i cs h)

  nobody : (i : ℕ) (cs : List Client) → is_addressed [] i cs ≡ false
  unfolding is_addressed any contains_id
  nobody i [] = refl
  nobody i (c ∷ cs) = ground (arith, nobody i cs)

  module _ (laws : IsUuids uuids) where
    -- One more user adds the clients of that user's room.
    is_addressed-cons :
        (u : ℕ) (us : List ℕ) (i : ℕ) (cs : List Client)
        → (u == 0) ≡ false
        → AreOwned uuids laws cs
        → is_addressed (u ∷ us) i cs
          ≡ (is_subscribed (user_room uuids u payments_channel) i cs || is_addressed us i cs)
    unfolding is_addressed is_subscribed any contains_id
    is_addressed-cons u us i [] z o = refl
    is_addressed-cons u us i (c ∷ cs) z o =
        elim (Bool-cases (contains_text (user_room uuids u payments_channel) c.rooms)) [
          | inl e ↦
              ground
                (arith, e, z, o.0 u e, same_room c (o.0 u e), is_addressed-cons u us i cs z o.1)
          | inr e ↦ elim (Bool-cases (c.info.user_id == u)) [
            | inl f ↦ ground (
              arith,
              e,
              f,
              z,
              same_room c {v = u} (ground (arith, f)),
              is_addressed-cons u us i cs z o.1,
            )
            | inr f ↦ ground (arith, e, f, z, is_addressed-cons u us i cs z o.1)
          ]
        ]
      where
        same_room :
            (c : Client) {v : ℕ}
            → c.info.user_id ≡ v
            → contains_text (user_room uuids c.info.user_id payments_channel) c.rooms
              ≡ contains_text (user_room uuids v payments_channel) c.rooms
        same_room c e = ap (λ w. contains_text (user_room uuids w payments_channel) c.rooms) e

    -- A client of the first user is of none of the others.
    is_addressed-apart :
        (u : ℕ) (us : List ℕ) (i : ℕ) (cs : List Client)
        → contains_id u us ≡ false
        → IsUnique cs
        → AreOwned uuids laws cs
        → is_subscribed (user_room uuids u payments_channel) i cs ≡ true
        → is_addressed us i cs ≡ false
    unfolding is_addressed is_subscribed any contains_id
    is_addressed-apart u us i [] a q o s = refl
    is_addressed-apart u us i (c ∷ cs) a q o s = elim (Bool-cases (by_id i c)) [
      | inl e ↦ elim (Bool-cases (contains_text (user_room uuids u payments_channel) c.rooms)) [
        | inl f ↦ ground (arith, e, f, o.0 u f, a, is_addressed-new us i cs)
        | inr f ↦
            ground
              (arith, e, f, s, q.0, is_subscribed-new (user_room uuids u payments_channel) i cs)
      ]
      | inr e ↦ ground (arith, e, s, is_addressed-apart u us i cs a q.1 o.1)
    ]

    payments_key :
        (u : ℕ)
        → (u == 0) ≡ false
        → build_user_room_key uuids u payments_channel ≡ some (user_room uuids u payments_channel)
    unfolding build_user_room_key trim_space is_channel_name any
    payments_key u z = rw z refl

    module _ {M : Type 0} where
      -- A delivery that succeeds, and what it sends.
      abbrev pub Delivers : Run (Hub M) → (ℕ → Bool) → M → Hub M → Type 0
      Delivers run who m h =
          (t : Hub M) × (run ≡ returns t) × Sends who m h.pipes t.pipes × KeepsRooms h t × IsSound t

      one_of :
          (a b : Bool) (m : M) (p : Pipe M) {c : Bool} {q r : Pipe M}
          → c ≡ (a || b)
          → (a ≡ true → b ≡ false)
          → q ≡ (if a then pushed m p else p)
          → r ≡ (if b then pushed m q else q)
          → r ≡ (if c then pushed m p else p)
      one_of true b m p e f g k = ground (arith, e, f refl, g, k)
      one_of false b m p e f g k = ground (arith, e, g, k)

      same_clients :
          (us : List ℕ) (i : ℕ) (m : M) (p : Pipe M) {cs ds : List Client}
          → cs ≡ ds
          → (if is_addressed us i cs then pushed m p else p)
            ≡ (if is_addressed us i ds then pushed m p else p)
      same_clients us i m p e = ap (λ x. if is_addressed us i x then pushed m p else p) e

      pub deliver_each-Delivers :
          (us : List ℕ) (m : M) (h : Hub M)
          → IsDistinct us
          → All (λ u. (u == 0) ≡ false) us
          → IsSound h
          → h.is_closed ≡ false
          → AreOwned uuids laws h.clients
          → Delivers (deliver_each uuids us m h) (λ i. is_addressed us i h.clients) m h
      unfolding deliver_each
      deliver_each-Delivers [] m h d z s e o =
          (h, refl, (λ i. rw (nobody i h.clients) refl), (refl, refl, refl), s)
      deliver_each-Delivers (u ∷ us) m h d z s e o =
          let first = broadcast-Sends (user_room uuids u payments_channel) m h s e in
          let rest =
            deliver_each-Delivers us m first.0 d.1 z.1 first.4 (first.3.2 ∙ e) (rw (first.3.0) o) in
          (
            rest.0,
            rw (payments_key u z.0, first.1) rest.1,
            (λ i.
                one_of (is_subscribed (user_room uuids u payments_channel) i h.clients)
                  (is_addressed us i h.clients) m (h.pipes i)
                  (is_addressed-cons u us i h.clients z.0 o)
                  (is_addressed-apart u us i h.clients d.0 s.unique o) (first.2 i)
                  (rest.2 i ∙ same_clients us i m (first.0.pipes i) first.3.0)),
            (rest.3.0 ∙ first.3.0, rest.3.1 ∙ first.3.1, rest.3.2 ∙ first.3.2),
            rest.4,
          )
