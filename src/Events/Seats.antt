-- ===== src/Events/Seats.antt =====
-- The seats of an event: the users who attend it, or have bought it, or may still be confirmed.
use nim_near.Prelude.{
  ℕ, ◌≤◌, ◌≡◌, refl, inl, inr, Bool, true, false, List, [], ◌∷◌, ◌++◌, arith, Bool-cases, any,
  update_where,
}
use nim_near.Store.{Db, Purchase, purchase_is_active}
use nim_near.Purchases.Rows.{contains, count_distinct, participant_ids, buyer_ids}
use nim_near.Events.Lifecycle.{has_activity}
use nim_near.Events.Distinct.{IsWithin, count_distinct_mono, contains-append}

unfoldable pub seats : ℕ → Db → ℕ
seats event db =
    count_distinct
      (participant_ids event db.participants ++ buyer_ids (has_activity event) db.purchases)

IsWithin-append :
    (ps qs xs ys : List ℕ) → IsWithin ps qs → IsWithin xs ys → IsWithin (ps ++ xs) (qs ++ ys)
IsWithin-append ps qs xs ys h k u m =
    ground (arith, contains-append u ps xs, contains-append u qs ys, h u, k u, m)

-- Fewer participants and fewer active purchases take fewer seats.
pub seats_mono :
    (event : ℕ) (db db' : Db)
    → IsWithin (participant_ids event db'.participants) (participant_ids event db.participants)
    → IsWithin
        (buyer_ids (has_activity event) db'.purchases)
        (buyer_ids (has_activity event) db.purchases)
    → seats event db' ≤ seats event db
unfolding seats
seats_mono event db db' h k = count_distinct_mono _ _ (IsWithin-append _ _ _ _ h k)

-- An UPDATE that makes no purchase active, and keeps its event and buyer.
abbrev pub Shrinks : (Purchase → Bool) → (Purchase → Purchase) → Type 0
Shrinks p f =
    (r : Purchase)
    → p r ≡ true
    → ((f r).event_id ≡ r.event_id)
      × ((f r).user_id ≡ r.user_id)
      × (purchase_is_active (f r).status ≡ true → purchase_is_active r.status ≡ true)

module _ (event : ℕ) (p : Purchase → Bool) (f : Purchase → Purchase) (shrinks : Shrinks p f) where
  activity_kept :
      (r : Purchase) → p r ≡ true → has_activity event (f r) ≡ true → has_activity event r ≡ true
  activity_kept r h a = let s = shrinks r h in ground (arith, s.0, s.2, a)

  pub buyers-update :
      (xs : List Purchase)
      → IsWithin
          (buyer_ids (has_activity event) (update_where p f xs))
          (buyer_ids (has_activity event) xs)
  unfolding buyer_ids update_where contains
  buyers-update [] u m = m
  buyers-update (x ∷ xs) u m = elim (Bool-cases (p x)) [
    | inl e ↦ ground (arith, e, m, activity_kept x e, (shrinks x e).1, buyers-update xs u)
    | inr e ↦ ground (arith, e, m, buyers-update xs u)
  ]

  pub idle-update :
      (xs : List Purchase)
      → any (has_activity event) xs ≡ false
      → any (has_activity event) (update_where p f xs) ≡ false
  unfolding any update_where
  idle-update [] h = refl
  idle-update (x ∷ xs) h = elim (Bool-cases (p x)) [
    | inl e ↦ ground (arith, e, h, activity_kept x e, idle-update xs)
    | inr e ↦ ground (arith, e, h, idle-update xs)
  ]

-- Without activity there are no buyers.
pub idle-buyer_ids :
    (event : ℕ) (xs : List Purchase)
    → any (has_activity event) xs ≡ false
    → buyer_ids (has_activity event) xs ≡ []
unfolding any buyer_ids
idle-buyer_ids event [] h = refl
idle-buyer_ids event (x ∷ xs) h = ground (arith, h, idle-buyer_ids event xs)
