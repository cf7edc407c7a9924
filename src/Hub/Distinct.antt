-- ===== src/Hub/Distinct.antt =====
-- No client is listed twice in a room.
use nim_near.Prelude.{
  ℕ, ◌≡◌, refl, inl, inr, false, List, [], ◌∷◌, arith, Bool-cases, Text, text_eq, All,
}
use nim_near.Realtime.{contains_id}
use nim_near.Hub.State.{
  Room, drop_id, add_id, join_room, leave_room, leave_rooms, keep_room, members_of,
}
use nim_near.Hub.Views.{contains_id-drop}

abbrev pub IsDistinct : List ℕ → Type 0
IsDistinct [] = Unit
IsDistinct (i ∷ is) = (contains_id i is ≡ false) × IsDistinct is

abbrev pub AreDistinct : List Room → Type 0
AreDistinct rs = All (λ r. IsDistinct r.members) rs

IsDistinct-add : (i : ℕ) (is : List ℕ) → IsDistinct is → IsDistinct (add_id i is)
IsDistinct-add i is h = elim (Bool-cases (contains_id i is)) [
  | inl e ↦ rw e h
  | inr e ↦ rw e (e, h)
]

IsDistinct-drop : (j : ℕ) (is : List ℕ) → IsDistinct is → IsDistinct (drop_id j is)
unfolding drop_id
IsDistinct-drop j [] h = tt
IsDistinct-drop j (i ∷ is) h = ground (arith, contains_id-drop i j is, IsDistinct-drop j is h.1)

AreDistinct-keep :
    (r : Room) (is : List ℕ) (rest : List Room)
    → IsDistinct is
    → AreDistinct rest
    → AreDistinct (keep_room r is rest)
AreDistinct-keep r [] rest d h = h
AreDistinct-keep r (i ∷ is) rest d h = (d, h)

pub AreDistinct-join :
    (k : Text) (i : ℕ) (rs : List Room) → AreDistinct rs → AreDistinct (join_room k i rs)
unfolding join_room contains_id
AreDistinct-join k i [] h = ((refl, tt), tt)
AreDistinct-join k i (r ∷ rs) h = elim (Bool-cases (text_eq r.name k)) [
  | inl e ↦ rw e (IsDistinct-add i r.members h.0, h.1)
  | inr e ↦ rw e (h.0, AreDistinct-join k i rs h.1)
]

pub AreDistinct-leave :
    (k : Text) (i : ℕ) (rs : List Room) → AreDistinct rs → AreDistinct (leave_room k i rs)
unfolding leave_room
AreDistinct-leave k i [] h = tt
AreDistinct-leave k i (r ∷ rs) h = elim (Bool-cases (text_eq r.name k)) [
  | inl e ↦ rw e (
      AreDistinct-keep r (drop_id i r.members) (leave_room k i rs) (IsDistinct-drop i r.members h.0)
        (AreDistinct-leave k i rs h.1))
  | inr e ↦ rw e (h.0, AreDistinct-leave k i rs h.1)
]

pub AreDistinct-leave_rooms :
    (ks : List Text) (i : ℕ) (rs : List Room) → AreDistinct rs → AreDistinct (leave_rooms ks i rs)
unfolding leave_rooms
AreDistinct-leave_rooms [] i rs h = h
AreDistinct-leave_rooms (k ∷ ks) i rs h =
    AreDistinct-leave_rooms ks i (leave_room k i rs) (AreDistinct-leave k i rs h)

pub members_of-IsDistinct :
    (k : Text) (rs : List Room) → AreDistinct rs → IsDistinct (members_of k rs)
unfolding members_of
members_of-IsDistinct k [] h = tt
members_of-IsDistinct k (r ∷ rs) h = elim (Bool-cases (text_eq r.name k)) [
  | inl e ↦ rw e h.0
  | inr e ↦ rw e (members_of-IsDistinct k rs h.1)
]
