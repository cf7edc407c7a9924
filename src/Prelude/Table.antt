-- ===== src/Prelude/Table.antt =====
-- A database table as a list of rows, and what the SQL statements of the repositories do to it.
use Prim.Native.Nat.{ℕ, zero, suc}
use mathlib.Core.Path.{◌≡◌}
use mathlib.Core.Bool.{Bool, true, false, ◌||◌}
use mathlib.Core.Option.{Option, none, some}
use mathlib.Core.List.{List, [], ◌∷◌}
use mathlib.Core.Logic.{◌⊎◌, inl, inr}
use native.Mathlib.Omega.{arith}
use nim_near.Prelude.Tests.{if◌then◌else◌, Bool-cases}

module _ {ℓ} {A : Type ℓ} where
  abbrev pub length : List A → ℕ
  length [] = 0
  length (x ∷ xs) = suc (length xs)

  -- SELECT … WHERE p, read by one Scan.
  unfoldable pub find : (A → Bool) → List A → Option A
  find p [] = none
  find p (x ∷ xs) = if p x then some x else find p xs

  unfoldable pub any : (A → Bool) → List A → Bool
  any p [] = false
  any p (x ∷ xs) = p x || any p xs

  -- SELECT … WHERE p, all rows.
  unfoldable pub select : (A → Bool) → List A → List A
  select p [] = []
  select p (x ∷ xs) = let rest = select p xs in if p x then x ∷ rest else rest

  -- UPDATE … SET f WHERE p
  unfoldable pub update_where : (A → Bool) → (A → A) → List A → List A
  update_where p f [] = []
  update_where p f (x ∷ xs) = (if p x then f x else x) ∷ update_where p f xs

  -- The row that UPDATE … SET f WHERE p RETURNING * hands to one Scan. `none` is pgx.ErrNoRows.
  abbrev pub returning : (A → Bool) → (A → A) → List A → Option A
  returning p f xs = elim (find p xs) [ none ↦ none | some x ↦ some (f x) ]

  -- LIMIT n
  unfoldable pub take : ℕ → List A → List A
  take zero xs = []
  take (suc n) [] = []
  take (suc n) (x ∷ xs) = x ∷ take n xs

  -- ORDER BY: `before x y` says that x may stand before y.
  unfoldable pub insert_by : (A → A → Bool) → A → List A → List A
  insert_by before x [] = x ∷ []
  insert_by before x (y ∷ ys) = if before x y then x ∷ y ∷ ys else y ∷ insert_by before x ys

  unfoldable pub sort_by : (A → A → Bool) → List A → List A
  unfolding insert_by
  sort_by before [] = []
  sort_by before (x ∷ xs) = insert_by before x (sort_by before xs)

  abbrev pub All {κ} : (A → Type κ) → List A → Type κ
  All P [] = Unit
  All P (x ∷ xs) = P x × All P xs

  pub All-mono {κ λ'} :
      {P : A → Type κ} {Q : A → Type λ'} (xs : List A) → ((a : A) → P a → Q a) → All P xs → All Q xs
  All-mono [] f h = tt
  All-mono (x ∷ xs) f h = (f x h.0, All-mono xs f h.1)

  -- Some row of the table.
  abbrev pub Some : (A → Type 0) → List A → Type 0
  Some P [] = ⊥
  Some P (x ∷ xs) = P x ⊎ Some P xs

  pub Some-mono : {P Q : A → Type 0} (xs : List A) → ((a : A) → P a → Q a) → Some P xs → Some Q xs
  Some-mono [] f h = elim h [ ]
  Some-mono (x ∷ xs) f (inl h) = inl (f x h)
  Some-mono (x ∷ xs) f (inr h) = inr (Some-mono xs f h)

  pub All-update_where {κ} :
      {P : A → Type κ} (p : A → Bool) (f : A → A) (xs : List A)
      → ((a : A) → p a ≡ true → P a → P (f a))
      → All P xs
      → All P (update_where p f xs)
  unfolding update_where
  All-update_where p f [] keep h = tt
  All-update_where p f (x ∷ xs) keep h = ground (arith, keep x, All-update_where p f xs keep h.1)

  -- What a successful read says of its row.
  pub find-All {κ} :
      (P : A → Type κ) (p : A → Bool) (xs : List A) {a : A} → All P xs → find p xs ≡ some a → P a
  unfolding find
  find-All P p [] h e = cc
  find-All P p (x ∷ xs) {a} h e = ground (arith, find-All P p xs {a = a} h.1)

  pub find-holds : (p : A → Bool) (xs : List A) {a : A} → find p xs ≡ some a → p a ≡ true
  unfolding find
  find-holds p [] e = cc
  find-holds p (x ∷ xs) {a} e = ground (arith, find-holds p xs {a = a})

  -- The row that `returning` hands out stood in the table, and matched.
  pub returning-found :
      (p : A → Bool) (f : A → A) (xs : List A) {b : A}
      → returning p f xs ≡ some b
      → (a : A) × (p a ≡ true) × (f a ≡ b)
  unfolding find
  returning-found p f [] h = cc
  returning-found p f (x ∷ xs) {b} h = elim (Bool-cases (p x)) [
    | inl e ↦ (x, e, ground (arith, e))
    | inr e ↦ returning-found p f xs {b = b} (ground arith)
  ]
