-- ===== src/Events/Lookup.antt =====
-- Reading an event by its id from a table where ids are a key.
use nim_near.Prelude.{
  ℕ, ◌≡◌, ◌≢◌, refl, sym, ◌∙◌, inl, inr, Bool, true, false, some, List, [], ◌∷◌, ◌==◌, arith,
  if◌then◌else◌, Bool-cases, find, any, update_where, IsKeyed, All, find-All,
}
use nim_near.Store.{EventRow}
use nim_near.Purchases.Rows.{event_by_id}

abbrev pub IsEventKeyed : List EventRow → Type 0
IsEventKeyed = IsKeyed (λ e. e.id)

-- There is one row with the id.
pub found_once :
    (id : ℕ) (p : EventRow → Bool) (rows : List EventRow) (a b : EventRow)
    → IsEventKeyed rows
    → find (event_by_id id) rows ≡ some a
    → find p rows ≡ some b
    → b.id ≡ id
    → b ≡ a
unfolding find
found_once id p [] a b k f g e = cc
found_once id p (x ∷ rows) a b k f g e = elim (Bool-cases (x.id == id)) [
  | inl s ↦ elim (Bool-cases (p x)) [
    | inl h ↦ ground (arith, s, h, f, g)
    | inr h ↦
        let apart : b.id ≢ x.id =
          find-All (λ y. y.id ≢ x.id) p rows {a = b} k.0 (ground (arith, h, g)) in
        ground (arith, apart, s, e)
  ]
  | inr d ↦ elim (Bool-cases (p x)) [
    | inl h ↦ ground (arith, d, h, f, g, e)
    | inr h ↦ found_once id p rows a b k.1 (ground (arith, d, f)) (ground (arith, h, g)) e
  ]
]

module _ (p : EventRow → Bool) (f : EventRow → EventRow)
    (same_id : (e : EventRow) → (f e).id ≡ e.id) where
  abbrev touched : EventRow → EventRow
  touched e = if p e then f e else e

  touched-id : (e : EventRow) → (touched e).id ≡ e.id
  touched-id e = elim (Bool-cases (p e)) [ inl h ↦ rw h (same_id e) | inr h ↦ rw h refl ]

  pub update-found :
      (id : ℕ) (rows : List EventRow) {a : EventRow}
      → find (event_by_id id) rows ≡ some a
      → find (event_by_id id) (update_where p f rows) ≡ some (if p a then f a else a)
  unfolding find update_where
  update-found id [] h = cc
  update-found id (x ∷ rows) {a} h = elim (Bool-cases (x.id == id)) [
    | inl e ↦ ground (arith, e, h, touched-id x)
    | inr e ↦ ground (arith, e, h, touched-id x, update-found id rows {a = a})
  ]

  keyed_apart :
      (x : EventRow) (rows : List EventRow)
      → All (λ y. y.id ≢ x.id) rows
      → All (λ y. y.id ≢ (touched x).id) (update_where p f rows)
  unfolding update_where
  keyed_apart x [] h = tt
  keyed_apart x (y ∷ rows) h =
      ((λ e. h.0 (sym (touched-id y) ∙ e ∙ touched-id x)), keyed_apart x rows h.1)

  pub IsEventKeyed-update :
      (rows : List EventRow) → IsEventKeyed rows → IsEventKeyed (update_where p f rows)
  unfolding update_where
  IsEventKeyed-update [] h = tt
  IsEventKeyed-update (x ∷ rows) h = (keyed_apart x rows h.0, IsEventKeyed-update rows h.1)

fresh_apart :
    (id : ℕ) (rows : List EventRow) → any (event_by_id id) rows ≡ false → All (λ y. y.id ≢ id) rows
unfolding any
fresh_apart id [] h = tt
fresh_apart id (y ∷ rows) h = ((λ k. ground (arith, h, k)), fresh_apart id rows (ground (arith, h)))

-- A new id keeps the key.
pub fresh-IsEventKeyed :
    (e : EventRow) (rows : List EventRow)
    → any (event_by_id e.id) rows ≡ false
    → IsEventKeyed rows
    → IsEventKeyed (e ∷ rows)
fresh-IsEventKeyed e rows h k = (fresh_apart e.id rows h, k)

pub found-any :
    (id : ℕ) (rows : List EventRow) {a : EventRow}
    → find (event_by_id id) rows ≡ some a
    → any (event_by_id id) rows ≡ true
unfolding find any
found-any id [] h = cc
found-any id (x ∷ rows) {a} h = ground (arith, found-any id rows {a = a})
