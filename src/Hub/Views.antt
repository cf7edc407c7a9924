-- ===== src/Hub/Views.antt =====
-- The two indexes of the hub: the members of a room, and the rooms of a client.
use nim_near.Prelude.{
  ℕ, ◌≡◌, refl, inl, inr, Bool, true, false, not, ◌&&◌, ◌||◌, List, [], ◌∷◌, arith, ◌==◌,
  Bool-cases, Text, text_eq, text_eq_refl, text_eq_sound, any,
}
use nim_near.Realtime.{contains_id}
use nim_near.Hub.State.{
  Client, Room, by_id, contains_text, drop_text, drop_id, members_of, join_room, leave_room,
  leave_rooms, keep_room, add_id, add_text,
}

unfoldable pub is_member : Text → ℕ → List Room → Bool
unfolding members_of contains_id
is_member k i rs = contains_id i (members_of k rs)

unfoldable pub is_subscribed : Text → ℕ → List Client → Bool
unfolding any contains_text
is_subscribed k i cs = any (λ c. by_id i c && contains_text k c.rooms) cs

unfoldable pub is_room : Text → List Room → Bool
unfolding any
is_room k rs = any (λ r. text_eq r.name k) rs

-- The keys of Hub.rooms are distinct.
abbrev pub IsNamed : List Room → Type 0
IsNamed [] = Unit
IsNamed (r ∷ rs) = (is_room r.name rs ≡ false) × IsNamed rs

text_eq-same : (a b k : Text) → text_eq a b ≡ true → text_eq a k ≡ text_eq b k
text_eq-same a b k h = rw (text_eq_sound a b h) refl

contains_id-add :
    (i j : ℕ) (is : List ℕ) → contains_id i (add_id j is) ≡ (i == j || contains_id i is)
unfolding contains_id
contains_id-add i j is = ground arith

pub contains_id-drop :
    (i j : ℕ) (is : List ℕ) → contains_id i (drop_id j is) ≡ (contains_id i is && not (i == j))
unfolding contains_id drop_id
contains_id-drop i j [] = refl
contains_id-drop i j (x ∷ xs) = ground (arith, contains_id-drop i j xs)

pub contains_text-add :
    (k t : Text) (ts : List Text)
    → contains_text k (add_text t ts) ≡ (text_eq t k || contains_text k ts)
unfolding contains_text
contains_text-add k t ts = elim (Bool-cases (contains_text t ts)) [
  | inl e ↦ elim (Bool-cases (text_eq t k)) [
    | inl h ↦ ground (arith, e, h, text_eq_sound t k h)
    | inr h ↦ ground (arith, e, h)
  ]
  | inr e ↦ ground (arith, e)
]

pub contains_text-drop :
    (k t : Text) (ts : List Text)
    → contains_text k (drop_text t ts) ≡ (contains_text k ts && not (text_eq t k))
unfolding contains_text drop_text
contains_text-drop k t [] = refl
contains_text-drop k t (x ∷ xs) = elim (Bool-cases (text_eq x t)) [
  | inl e ↦ ground (arith, e, text_eq-same x t k e, contains_text-drop k t xs)
  | inr e ↦ elim (Bool-cases (text_eq t k)) [
    | inl h ↦ ground (arith, e, h, text_eq_sound t k h, contains_text-drop k t xs)
    | inr h ↦ ground (arith, e, h, contains_text-drop k t xs)
  ]
]

pub is_room-join :
    (k t : Text) (j : ℕ) (rs : List Room)
    → is_room k (join_room t j rs) ≡ (text_eq t k || is_room k rs)
unfolding is_room join_room any
is_room-join k t j [] = refl
is_room-join k t j (r ∷ rs) = elim (Bool-cases (text_eq r.name t)) [
  | inl e ↦ ground (arith, e, text_eq-same r.name t k e)
  | inr e ↦ ground (arith, e, is_room-join k t j rs)
]

pub IsNamed-join : (t : Text) (j : ℕ) (rs : List Room) → IsNamed rs → IsNamed (join_room t j rs)
unfolding join_room is_room any
IsNamed-join t j [] h = ground arith
IsNamed-join t j (r ∷ rs) h = elim (Bool-cases (text_eq r.name t)) [
  | inl e ↦ ground (arith, e)
  | inr e ↦ ground (arith, e, text_eq-flip, is_room-join r.name t j rs, IsNamed-join t j rs h.1)
]
  where
    text_eq-flip : text_eq r.name t ≡ false → text_eq t r.name ≡ false
    text_eq-flip e = elim (Bool-cases (text_eq t r.name)) [
      | inl h ↦ ground (arith, e, text_eq_sound t r.name h, text_eq_refl t)
      | inr h ↦ h
    ]

pub is_member-join :
    (k t : Text) (i j : ℕ) (rs : List Room)
    → is_member k i (join_room t j rs) ≡ ((text_eq t k && i == j) || is_member k i rs)
unfolding is_member join_room members_of contains_id
is_member-join k t i j [] = ground arith
is_member-join k t i j (r ∷ rs) = elim (Bool-cases (text_eq r.name t)) [
  | inl e ↦ ground (arith, e, text_eq-same r.name t k e, contains_id-add i j r.members)
  | inr e ↦ elim (Bool-cases (text_eq t k)) [
    | inl h ↦ ground (arith, e, h, text_eq_sound t k h, is_member-join k t i j rs)
    | inr h ↦ ground (arith, e, h, is_member-join k t i j rs)
  ]
]

absent-members : (k : Text) (rs : List Room) → is_room k rs ≡ false → members_of k rs ≡ []
unfolding is_room members_of any
absent-members k [] h = refl
absent-members k (r ∷ rs) h = ground (arith, absent-members k rs)

is_room-leave :
    (k t : Text) (j : ℕ) (rs : List Room)
    → is_room k rs ≡ false
    → is_room k (leave_room t j rs) ≡ false
unfolding is_room leave_room any
is_room-leave k t j [] h = refl
is_room-leave k t j (r ∷ rs) h = elim (drop_id j r.members) [
  | [] ↦ ground (arith, is_room-leave k t j rs)
  | x ∷ xs ↦ ground (arith, is_room-leave k t j rs)
]

IsNamed-keep :
    (r : Room) (is : List ℕ) (rest : List Room)
    → is_room r.name rest ≡ false
    → IsNamed rest
    → IsNamed (keep_room r is rest)
IsNamed-keep r [] rest h n = n
IsNamed-keep r (x ∷ xs) rest h n = (h, n)

pub IsNamed-leave : (t : Text) (j : ℕ) (rs : List Room) → IsNamed rs → IsNamed (leave_room t j rs)
unfolding leave_room
IsNamed-leave t j [] h = tt
IsNamed-leave t j (r ∷ rs) h = elim (Bool-cases (text_eq r.name t)) [
  | inl e ↦ ground (
    arith,
    e,
    IsNamed-keep r (drop_id j r.members) (leave_room t j rs) (is_room-leave r.name t j rs h.0)
        (IsNamed-leave t j rs h.1),
  )
  | inr e ↦ ground (arith, e, is_room-leave r.name t j rs h.0, IsNamed-leave t j rs h.1)
]

members_of-keep :
    (k : Text) (r : Room) (is : List ℕ) (rest : List Room)
    → text_eq r.name k ≡ true
    → members_of k rest ≡ []
    → members_of k (keep_room r is rest) ≡ is
unfolding members_of
members_of-keep k r [] rest e h = h
members_of-keep k r (x ∷ xs) rest e h = ground (arith, e)

members_of-skip :
    (k : Text) (r : Room) (is : List ℕ) (rest : List Room)
    → text_eq r.name k ≡ false
    → members_of k (keep_room r is rest) ≡ members_of k rest
unfolding members_of
members_of-skip k r [] rest e = refl
members_of-skip k r (x ∷ xs) rest e = ground (arith, e)

pub is_member-leave :
    (k t : Text) (i j : ℕ) (rs : List Room)
    → IsNamed rs
    → is_member k i (leave_room t j rs) ≡ (is_member k i rs && not (text_eq t k && i == j))
unfolding is_member leave_room members_of contains_id
is_member-leave k t i j [] n = ground arith
is_member-leave k t i j (r ∷ rs) n = elim (Bool-cases (text_eq r.name t)) [
  | inl e ↦ elim (Bool-cases (text_eq r.name k)) [
    | inl f ↦ ground (
      arith,
      e,
      f,
      text_eq-same r.name t k e,
      members_of-keep k r (drop_id j r.members) (leave_room t j rs) f
          (absent-members k (leave_room t j rs) (is_room-leave k t j rs (absent f))),
      contains_id-drop i j r.members,
    )
    | inr f ↦ ground (
      arith,
      e,
      f,
      text_eq-same r.name t k e,
      members_of-skip k r (drop_id j r.members) (leave_room t j rs) f,
      is_member-leave k t i j rs n.1,
    )
  ]
  | inr e ↦ elim (Bool-cases (text_eq t k)) [
    | inl h ↦ ground (arith, e, h, text_eq_sound t k h, is_member-leave k t i j rs n.1)
    | inr h ↦ ground (arith, e, h, is_member-leave k t i j rs n.1)
  ]
]
  where
    absent : text_eq r.name k ≡ true → is_room k rs ≡ false
    absent f = rw (← text_eq_sound r.name k f) n.0

pub IsNamed-leave_rooms :
    (ks : List Text) (j : ℕ) (rs : List Room) → IsNamed rs → IsNamed (leave_rooms ks j rs)
unfolding leave_rooms
IsNamed-leave_rooms [] j rs h = h
IsNamed-leave_rooms (k ∷ ks) j rs h =
    IsNamed-leave_rooms ks j (leave_room k j rs) (IsNamed-leave k j rs h)

pub is_member-leave_rooms :
    (ks : List Text) (k : Text) (i j : ℕ) (rs : List Room)
    → IsNamed rs
    → is_member k i (leave_rooms ks j rs) ≡ (is_member k i rs && not (contains_text k ks && i == j))
unfolding leave_rooms contains_text
is_member-leave_rooms [] k i j rs h = ground arith
is_member-leave_rooms (t ∷ ts) k i j rs h = ground (
  arith,
  is_member-leave k t i j rs h,
  is_member-leave_rooms ts k i j (leave_room t j rs) (IsNamed-leave t j rs h),
)
