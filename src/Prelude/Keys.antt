-- ===== src/Prelude/Keys.antt =====
-- A table with a primary key, and two updates of the row with one key that exclude each other.
use Prim.Native.Nat.{ℕ}
use mathlib.Core.Path.{◌≡◌, refl}
use mathlib.Core.Logic.{◌≢◌, inl, inr}
use mathlib.Core.Bool.{Bool, true, false}
use mathlib.Core.Option.{none, some}
use mathlib.Core.List.{List, [], ◌∷◌}
use native.Mathlib.Omega.{arith}
use nim_near.Prelude.Tests.{Bool-cases}
use nim_near.Prelude.Table.{All, returning, find, update_where, find-All, find-holds}

module _ {A : Type 0} (key : A → ℕ) where
  -- No two rows have the same key.
  abbrev pub IsKeyed : List A → Type 0
  IsKeyed [] = Unit
  IsKeyed (x ∷ xs) = All (λ y. key y ≢ key x) xs × IsKeyed xs

  module _ (id : ℕ) (p q : A → Bool) (f : A → A) (p-key : (a : A) → p a ≡ true → key a ≡ id)
      (q-key : (a : A) → q a ≡ true → key a ≡ id)
      (excludes : (a : A) → p a ≡ true → q (f a) ≡ false) where
    absent-find :
        (x : A) (xs : List A)
        → key x ≡ id
        → All (λ y. key y ≢ key x) xs
        → find q (update_where p f xs) ≡ none
    unfolding find update_where
    absent-find x [] e h = ground arith
    absent-find x (y ∷ ys) e h = ground (arith, p-key y, q-key y, absent-find x ys e (h.1))

    -- After p has changed its row, q finds none.
    pub excluded-find :
        (xs : List A) {b : A}
        → IsKeyed xs
        → find p xs ≡ some b
        → find q (update_where p f xs) ≡ none
    unfolding find update_where
    excluded-find [] k e = cc
    excluded-find (x ∷ xs) {b} k e = elim (Bool-cases (p x)) [
      | inl h ↦ ground (arith, h, excludes x h, absent-find x xs (p-key x h) (k.0))
      | inr h ↦ ground (
        arith,
        h,
        q-key x,
        p-key b (find-holds p xs (tail_found h)),
        find-All (λ y. key y ≢ key x) p xs (k.0) (tail_found h),
        excluded-find xs (k.1) (tail_found h),
      )
    ]
      where
        tail_found : p x ≡ false → find p xs ≡ some b
        tail_found h = ground (arith, h, e)

-- An UPDATE that finds no row returns none.
pub returning-none :
    {A : Type 0} (p : A → Bool) (f : A → A) (xs : List A)
    → find p xs ≡ none
    → returning p f xs ≡ none
returning-none p f xs h = rw (h, returning) refl
