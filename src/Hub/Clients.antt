-- ===== src/Hub/Clients.antt =====
-- The clients' own index of their rooms after each change of the table of clients.
use nim_near.Prelude.{
  ℕ, ◌≡◌, refl, Bool, true, false, not, ◌&&◌, ◌||◌, none, some, List, [], ◌∷◌, arith, ◌==◌, Text,
  text_eq, any, find, update_where, All, length, ◌≤◌,
}
use nim_near.Hub.State.{
  Client, client_id, by_id, contains_text, without_client, subscribe_client, unsubscribe_client,
}
use nim_near.Hub.Views.{is_subscribed, contains_text-add, contains_text-drop}

unfoldable pub is_registered : ℕ → List Client → Bool
unfolding any
is_registered i cs = any (by_id i) cs

pub is_subscribed-add :
    (k t : Text) (i j : ℕ) (cs : List Client)
    → is_subscribed k i (update_where (by_id j) (subscribe_client t) cs)
      ≡ ((text_eq t k && (i == j && is_registered j cs)) || is_subscribed k i cs)
unfolding is_registered is_subscribed update_where any
is_subscribed-add k t i j [] = ground arith
is_subscribed-add k t i j (c ∷ cs) =
    ground (arith, contains_text-add k t c.rooms, is_subscribed-add k t i j cs)

pub is_subscribed-drop :
    (k t : Text) (i j : ℕ) (cs : List Client)
    → is_subscribed k i (update_where (by_id j) (unsubscribe_client t) cs)
      ≡ (is_subscribed k i cs && not (text_eq t k && i == j))
unfolding is_subscribed update_where any unsubscribe_client
is_subscribed-drop k t i j [] = ground arith
is_subscribed-drop k t i j (c ∷ cs) =
    ground (arith, contains_text-drop k t c.rooms, is_subscribed-drop k t i j cs)

pub is_subscribed-without :
    (k : Text) (i j : ℕ) (cs : List Client)
    → is_subscribed k i (without_client j cs) ≡ (is_subscribed k i cs && not (i == j))
unfolding is_subscribed without_client any
is_subscribed-without k i j [] = ground arith
is_subscribed-without k i j (c ∷ cs) = ground (arith, is_subscribed-without k i j cs)

-- A change of a client's rooms keeps the ids, and what holds of every client does when it ignores
-- them.
module _ (f : Client → Client) (same : (c : Client) → (f c).info ≡ c.info) where
  pub is_registered-update :
      (i j : ℕ) (cs : List Client)
      → is_registered i (update_where (by_id j) f cs) ≡ is_registered i cs
  unfolding is_registered update_where any
  is_registered-update i j [] = refl
  is_registered-update i j (c ∷ cs) = ground (arith, same c, is_registered-update i j cs)

  pub length-update : (j : ℕ) (cs : List Client) → length (update_where (by_id j) f cs) ≡ length cs
  unfolding update_where
  length-update j [] = refl
  length-update j (c ∷ cs) = ground (arith, length-update j cs)

pub is_registered-without :
    (i j : ℕ) (cs : List Client)
    → is_registered i (without_client j cs) ≡ (is_registered i cs && not (i == j))
unfolding is_registered without_client any
is_registered-without i j [] = ground arith
is_registered-without i j (c ∷ cs) = ground (arith, is_registered-without i j cs)

pub length-without : (j : ℕ) (cs : List Client) → length (without_client j cs) ≤ length cs
unfolding without_client
length-without j [] = omega arith
length-without j (c ∷ cs) = ground (arith, length-without j cs)

pub without_new : (j : ℕ) (cs : List Client) → is_registered j cs ≡ false → without_client j cs ≡ cs
unfolding is_registered without_client any
without_new j [] h = refl
without_new j (c ∷ cs) h = ground (arith, without_new j cs)

-- Nobody is subscribed who is not registered.
pub is_subscribed-new :
    (k : Text) (j : ℕ) (cs : List Client)
    → is_registered j cs ≡ false
    → is_subscribed k j cs ≡ false
unfolding is_registered is_subscribed any
is_subscribed-new k j [] h = refl
is_subscribed-new k j (c ∷ cs) h = ground (arith, is_subscribed-new k j cs)

-- No two clients have one id.
abbrev pub IsUnique : List Client → Type 0
IsUnique [] = Unit
IsUnique (c ∷ cs) = (is_registered (client_id c) cs ≡ false) × IsUnique cs

pub IsUnique-update :
    (f : Client → Client)
    → ((c : Client) → (f c).info ≡ c.info)
    → (j : ℕ) (cs : List Client) → IsUnique cs
    → IsUnique (update_where (by_id j) f cs)
unfolding update_where
IsUnique-update f same j [] h = tt
IsUnique-update f same j (c ∷ cs) h =
    ground (
      arith,
      same c,
      is_registered-update f same (client_id c) j cs,
      IsUnique-update f same j cs h.1,
    )

pub IsUnique-without : (j : ℕ) (cs : List Client) → IsUnique cs → IsUnique (without_client j cs)
unfolding without_client
IsUnique-without j [] h = tt
IsUnique-without j (c ∷ cs) h =
    ground (arith, is_registered-without (client_id c) j cs, IsUnique-without j cs h.1)

pub All-without :
    (P : Client → Type 0) (j : ℕ) (cs : List Client) → All P cs → All P (without_client j cs)
unfolding without_client
All-without P j [] h = tt
All-without P j (c ∷ cs) h = ground (arith, All-without P j cs h.1)

-- The rooms of the one client with an id.
pub find-is_subscribed :
    (k : Text) (i : ℕ) (cs : List Client) {c : Client}
    → IsUnique cs
    → find (by_id i) cs ≡ some c
    → is_subscribed k i cs ≡ contains_text k c.rooms
unfolding is_subscribed find any
find-is_subscribed k i [] u e = cc
find-is_subscribed k i (d ∷ cs) {c} u e =
    ground (arith, is_subscribed-new k i cs, find-is_subscribed k i cs {c = c} u.1)

pub find-is_registered :
    (i : ℕ) (cs : List Client) {c : Client}
    → find (by_id i) cs ≡ some c
    → (client_id c ≡ i) × (is_registered i cs ≡ true)
unfolding is_registered find any
find-is_registered i [] e = cc
find-is_registered i (d ∷ cs) {c} e = ground (arith, find-is_registered i cs {c = c})

pub unregistered-find :
    (i : ℕ) (cs : List Client) → is_registered i cs ≡ false → find (by_id i) cs ≡ none
unfolding is_registered find any
unregistered-find i [] h = refl
unregistered-find i (c ∷ cs) h = ground (arith, unregistered-find i cs)
