-- ===== src/Prelude/Survival.antt =====
-- Tables whose rows are never deleted: every row of the first table is still in the second, moved
-- along a relation on rows.
use mathlib.Core.Path.{◌≡◌, refl}
use mathlib.Core.Logic.{inl, inr}
use mathlib.Core.Bool.{Bool, true, false}
use mathlib.Core.List.{List, [], ◌∷◌}
use mathlib.Core.Option.{some}
use native.Mathlib.Omega.{arith}
use nim_near.Prelude.Tests.{if◌then◌else◌, Bool-cases}
use nim_near.Prelude.Table.{All, All-mono, Some, Some-mono, update_where, find, returning}

abbrev pub Survive : {A : Type 0} → (A → A → Type 0) → List A → List A → Type 0
Survive Moves xs ys = All (λ r. Some (Moves r) ys) xs

module _ {A : Type 0} (Moves : A → A → Type 0) (stays : (r : A) → Moves r r)
    (follows : (r s t : A) → Moves r s → Moves s t → Moves r t) where
  pub Survive-refl : (xs : List A) → Survive Moves xs xs
  Survive-refl [] = tt
  Survive-refl (x ∷ xs) = (inl (stays x), All-mono xs (λ r h. inr h) (Survive-refl xs))

  relay : (r : A) (ys zs : List A) → Some (Moves r) ys → Survive Moves ys zs → Some (Moves r) zs
  relay r [] zs h k = elim h [ ]
  relay r (y ∷ ys) zs (inl m) k = Some-mono zs (λ t n. follows r y t m n) k.0
  relay r (y ∷ ys) zs (inr h) k = relay r ys zs h k.1

  pub Survive-trans :
      (xs ys zs : List A) → Survive Moves xs ys → Survive Moves ys zs → Survive Moves xs zs
  Survive-trans xs ys zs h k = All-mono xs (λ r e. relay r ys zs e k) h

  updated :
      (b : Bool) (p : A → Bool) (f : A → A) (r : A)
      → p r ≡ b
      → ((s : A) → p s ≡ true → Moves s (f s))
      → Moves r (if b then f r else r)
  updated true p f r e moves = moves r e
  updated false p f r e moves = stays r

  Survive-update_where :
      (p : A → Bool) (f : A → A) (xs : List A)
      → ((r : A) → p r ≡ true → Moves r (f r))
      → Survive Moves xs (update_where p f xs)
  unfolding update_where
  Survive-update_where p f [] moves = tt
  Survive-update_where p f (x ∷ xs) moves = (
    inl (updated (p x) p f x refl moves),
    All-mono xs (λ r h. inr h) (Survive-update_where p f xs moves),
  )

  -- An UPDATE that moves the rows that it matches keeps what survived before it.
  pub Survive-update :
      (xs ys : List A) (p : A → Bool) (f : A → A)
      → ((r : A) → p r ≡ true → Moves r (f r))
      → Survive Moves xs ys
      → Survive Moves xs (update_where p f ys)
  Survive-update xs ys p f moves h =
      Survive-trans xs ys (update_where p f ys) h (Survive-update_where p f ys moves)

  pub Survive-cons : (x : A) (xs ys : List A) → Survive Moves xs ys → Survive Moves xs (x ∷ ys)
  Survive-cons x xs ys h = All-mono xs (λ r e. inr e) h

-- The row that `returning` hands out is an updated row of the table.
pub returning-Some :
    {A : Type 0} (p : A → Bool) (f : A → A) (xs : List A) {b : A}
    → returning p f xs ≡ some b
    → Some (λ a. (p a ≡ true) × (f a ≡ b)) xs
unfolding find
returning-Some p f [] h = cc
returning-Some p f (x ∷ xs) {b} h = elim (Bool-cases (p x)) [
  | inl e ↦ inl (e, ground (arith, e))
  | inr e ↦ inr (returning-Some p f xs {b = b} (ground arith))
]

-- What holds of every row holds of the one that was found.
pub All-Some :
    {A : Type 0} (P Q : A → Type 0) (xs : List A) → All P xs → Some Q xs → Some (λ a. P a × Q a) xs
All-Some P Q [] h k = k
All-Some P Q (x ∷ xs) h (inl q) = inl (h.0, q)
All-Some P Q (x ∷ xs) h (inr k) = inr (All-Some P Q xs h.1 k)

-- The reason why a row may move can be weakened.
pub Survive-mono :
    {A : Type 0} (M N : A → A → Type 0)
    → ((r s : A) → M r s → N r s)
    → (xs ys : List A) → Survive M xs ys
    → Survive N xs ys
Survive-mono M N f xs ys h = All-mono xs (λ r k. Some-mono ys (f r) k) h
