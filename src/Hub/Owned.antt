-- ===== src/Hub/Owned.antt =====
-- A user's room has that user's clients only.
use nim_near.Prelude.{
  ℕ, ◌≡◌, inl, inr, true, false, ◌||◌, some, List, [], ◌∷◌, arith, ◌==◌, Bool-cases, Text, text_eq,
  text_eq_sound, All, find, update_where, ◌∙◌, All-update_where, any, trim_space,
}
use nim_near.Hub.Rooms.{
  Uuids, IsUuids, build_room_key, build_user_room_key, user_room, payments_channel, default_channel,
  is_channel_name, or_channel,
}
use nim_near.Hub.State.{
  Client, ClientInfo, by_id, contains_text, subscribe_client, unsubscribe_client,
}
use nim_near.Hub.Operations.{room_for_client, own_room, default_room, new_client}
use nim_near.Hub.Views.{contains_text-add, contains_text-drop}
use nim_near.Hub.Clients.{IsUnique, is_registered}
use nim_near.Hub.Names.{user_room-same, app_room-user_room}

module _ (uuids : Uuids) (laws : IsUuids uuids) where
  -- The client is in no payments room but its user's.
  abbrev pub OwnsRooms : Client → Type 0
  OwnsRooms c =
      (u : ℕ)
      → contains_text (user_room uuids u payments_channel) c.rooms ≡ true
      → c.info.user_id ≡ u

  pub build_user_room_key-owner :
      (v u : ℕ)
      → build_user_room_key uuids v payments_channel ≡ some (user_room uuids u payments_channel)
      → v ≡ u
  unfolding build_user_room_key trim_space is_channel_name any
  build_user_room_key-owner v u h = elim (Bool-cases (v == 0)) [
    | inl e ↦ ground (arith, e, h)
    | inr e ↦ user_room-same uuids laws v u payments_channel (ground (arith, e, h))
  ]

  pub build_room_key-other :
      (org app u : ℕ) (channel : Text)
      → build_room_key uuids org app channel ≡ some (user_room uuids u payments_channel)
      → ⊥
  unfolding build_room_key
  build_room_key-other org app u channel h =
      elim (Bool-cases (is_channel_name (or_channel (trim_space channel) default_channel))) [
        | inl e ↦
            app_room-user_room uuids laws org app u
              (or_channel (trim_space channel) default_channel) payments_channel
              (ground (arith, e, h))
        | inr e ↦ ground (arith, e, h)
      ]

  pub room_for_client-owner :
      (info : ClientInfo) (channel : Text) (u : ℕ)
      → room_for_client uuids info channel ≡ some (user_room uuids u payments_channel)
      → info.user_id ≡ u
  unfolding room_for_client
  room_for_client-owner info channel u h =
      elim (Bool-cases (info.organization_id == 0 || info.app_id == 0)) [
        | inl e ↦ elim (Bool-cases (text_eq channel payments_channel)) [
          | inl f ↦ build_user_room_key-owner info.user_id u (ground (arith, e, f, h))
          | inr f ↦ ground (arith, e, f, h)
        ]
        | inr e ↦
            absurd (
              build_room_key-other info.organization_id info.app_id u channel
                (ground (arith, e, h)))
      ]

  pub own_room-owner :
      (info : ClientInfo) (u : ℕ)
      → own_room uuids info ≡ some (user_room uuids u payments_channel)
      → info.user_id ≡ u
  own_room-owner info u h = elim (Bool-cases (info.user_id == 0)) [
    | inl e ↦ ground (arith, e, h)
    | inr e ↦ build_user_room_key-owner info.user_id u (ground (arith, e, h))
  ]

  pub default_room-other :
      (info : ClientInfo) (u : ℕ)
      → default_room uuids info ≡ some (user_room uuids u payments_channel)
      → info.user_id ≡ u
  default_room-other info u h = elim (Bool-cases (info.organization_id == 0 || info.app_id == 0)) [
    | inl e ↦ ground (arith, e, h)
    | inr e ↦ absurd (
        build_room_key-other info.organization_id info.app_id u default_channel
          (ground (arith, e, h)))
  ]

  pub new_client-OwnsRooms : (info : ClientInfo) → OwnsRooms (new_client info)
  unfolding contains_text
  new_client-OwnsRooms info u m = cc

  owns-subscribed :
      (k : Text) (c : Client)
      → ((u : ℕ) → k ≡ user_room uuids u payments_channel → c.info.user_id ≡ u)
      → OwnsRooms c
      → OwnsRooms (subscribe_client k c)
  owns-subscribed k c fits owns u h =
      elim (Bool-cases (text_eq k (user_room uuids u payments_channel))) [
        | inl e ↦ fits u (text_eq_sound k (user_room uuids u payments_channel) e)
        | inr e ↦
            owns u (
              ground
                (arith, e, h, contains_text-add (user_room uuids u payments_channel) k c.rooms))
      ]

  pub owns-unsubscribed : (k : Text) (c : Client) → OwnsRooms c → OwnsRooms (unsubscribe_client k c)
  unfolding unsubscribe_client
  owns-unsubscribed k c owns u h =
      owns u (ground (arith, h, contains_text-drop (user_room uuids u payments_channel) k c.rooms))

  abbrev pub AreOwned : List Client → Type 0
  AreOwned cs = All OwnsRooms cs

-- Every client with the id has the same user, organization and app.
abbrev pub HaveInfo : ℕ → ClientInfo → List Client → Type 0
HaveInfo i info cs = All (λ d. by_id i d ≡ true → d.info ≡ info) cs

pub HaveInfo-new :
    (i : ℕ) (info : ClientInfo) (cs : List Client) → is_registered i cs ≡ false → HaveInfo i info cs
unfolding is_registered any
HaveInfo-new i info [] h = tt
HaveInfo-new i info (c ∷ cs) h =
    (λ e. ground (arith, e, h), HaveInfo-new i info cs (ground (arith, h)))

pub HaveInfo-found :
    (i : ℕ) (cs : List Client) {c : Client}
    → IsUnique cs
    → find (by_id i) cs ≡ some c
    → HaveInfo i c.info cs
unfolding find
HaveInfo-found i [] u e = tt
HaveInfo-found i (d ∷ cs) {c} u e = elim (Bool-cases (by_id i d)) [
  | inl f ↦ (λ g. ground (arith, f, e), HaveInfo-new i c.info cs (ground (arith, f, u.0)))
  | inr f ↦ (λ g. ground (arith, f, g), HaveInfo-found i cs {c = c} u.1 (ground (arith, f, e)))
]

pub HaveInfo-update :
    (f : Client → Client)
    → ((c : Client) → (f c).info ≡ c.info)
    → (i j : ℕ) (info : ClientInfo) (cs : List Client) → HaveInfo i info cs
    → HaveInfo i info (update_where (by_id j) f cs)
HaveInfo-update f same i j info cs h =
    All-update_where (by_id j) f cs (λ c e k. λ m. same c ∙ k (rw (← same c) m)) h

module _ (uuids : Uuids) (laws : IsUuids uuids) where
  pub AreOwned-add :
      (k : Text) (i : ℕ) (info : ClientInfo) (cs : List Client)
      → ((u : ℕ) → k ≡ user_room uuids u payments_channel → info.user_id ≡ u)
      → HaveInfo i info cs
      → AreOwned uuids laws cs
      → AreOwned uuids laws (update_where (by_id i) (subscribe_client k) cs)
  unfolding update_where
  AreOwned-add k i info [] fits same h = tt
  AreOwned-add k i info (c ∷ cs) fits same h = elim (Bool-cases (by_id i c)) [
    | inl e ↦ rw e (
      owns-subscribed uuids laws k c (λ u x. rw (same.0 e) (fits u x)) h.0,
      AreOwned-add k i info cs fits same.1 h.1,
    )
    | inr e ↦ rw e (h.0, AreOwned-add k i info cs fits same.1 h.1)
  ]
