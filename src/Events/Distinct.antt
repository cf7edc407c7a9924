-- ===== src/Events/Distinct.antt =====
-- Counting each user once: a set of users counts at most as many as a set that includes it.
use nim_near.Prelude.{
  ℕ, suc, ◌≤◌, ◌≡◌, refl, inl, inr, true, false, ◌||◌, List, [], ◌∷◌, ◌++◌, ◌==◌, arith,
  if◌then◌else◌, Bool-cases,
}
use nim_near.Purchases.Rows.{contains, count_distinct}

-- Every member of the first list is one of the second.
abbrev pub IsWithin : List ℕ → List ℕ → Type 0
IsWithin us vs = (u : ℕ) → contains u us ≡ true → contains u vs ≡ true

unfoldable discard : ℕ → List ℕ → List ℕ
discard x [] = []
discard x (y ∷ ys) = let rest = discard x ys in if x == y then rest else y ∷ rest

contains-discard :
    (u x : ℕ) (ys : List ℕ) → (u == x) ≡ false → contains u (discard x ys) ≡ contains u ys
unfolding contains discard
contains-discard u x [] h = refl
contains-discard u x (y ∷ ys) h = ground (arith, contains-discard u x ys h)

contains-discarded : (x : ℕ) (ys : List ℕ) → contains x (discard x ys) ≡ false
unfolding contains discard
contains-discarded x [] = refl
contains-discarded x (y ∷ ys) = ground (arith, contains-discarded x ys)

discard-absent : (x : ℕ) (ys : List ℕ) → contains x ys ≡ false → discard x ys ≡ ys
unfolding contains discard
discard-absent x [] h = refl
discard-absent x (y ∷ ys) h = ground (arith, discard-absent x ys)

-- Without a member, a list counts one less.
count_distinct-discard :
    (x : ℕ) (ys : List ℕ)
    → contains x ys ≡ true
    → count_distinct ys ≡ suc (count_distinct (discard x ys))
unfolding contains count_distinct discard
count_distinct-discard x [] h = cc
count_distinct-discard x (y ∷ ys) h =
    ground (arith, discard-absent x ys, contains-discard y x ys, count_distinct-discard x ys)

pub count_distinct_mono : (us vs : List ℕ) → IsWithin us vs → count_distinct us ≤ count_distinct vs
unfolding contains count_distinct
count_distinct_mono [] vs h = omega arith
count_distinct_mono (u ∷ us) vs h = elim (Bool-cases (contains u us)) [
  | inl e ↦ rw e (count_distinct_mono us vs (λ w k. h w (ground (arith, k))))
  | inr e ↦ ground (
    arith,
    e,
    count_distinct-discard u vs (h u (ground arith)),
    count_distinct_mono us (discard u vs) (kept e),
  )
]
  where
    kept : contains u us ≡ false → IsWithin us (discard u vs)
    kept e w k = elim (Bool-cases (w == u)) [
      | inl s ↦ ground (arith, s, e, k)
      | inr d ↦ ground (arith, contains-discard w u vs d, h w, k)
    ]

pub contains-append :
    (u : ℕ) (xs ys : List ℕ) → contains u (xs ++ ys) ≡ (contains u xs || contains u ys)
unfolding contains
contains-append u [] ys = refl
contains-append u (x ∷ xs) ys = ground (arith, contains-append u xs ys)
