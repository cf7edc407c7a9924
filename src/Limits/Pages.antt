-- ===== src/Limits/Pages.antt =====
-- shared/pagination/pagination.go, on the values of the query.
use native.Mathlib.Nat.{mod-lt, mul_comm, le_trans, mul-le-mul_left}
use native.Mathlib.Omega.{div_any}
use nim_near.Prelude.{
  ℕ, ℤ, pos, suc, ◌+◌, ◌-◌, ◌*◌, ◌/◌, ◌%◌, ◌≤◌, ◌<◌, ◌≡◌, Option, ltb, ◌==◌, if◌then◌else◌,
  coalesce, positive_part, arith, inl, inr, Bool-cases,
}

abbrev pub default_per_page : ℕ
default_per_page = 20

abbrev pub max_per_page : ℕ
max_per_page = 100

abbrev pub max_page : ℕ
max_page = 1000000

pub record Params : Type 0 where
  pub page : ℕ
  pub per_page : ℕ

-- `if x < 1 { x = d }`, then `if x > m { x = m }`.
abbrev pub clamp : ℕ → ℕ → ℤ → ℕ
clamp d m x =
    let n = if positive_part x == 0 then d else positive_part x in if ltb m n then m else n

-- FromRequest: `none` is a parameter that is missing or is not a number of strconv.Atoi.
unfoldable pub from_request : Option ℤ → Option ℤ → Params
from_request page per_page = record {
  page = clamp 1 max_page (coalesce page (pos 1));
  per_page = clamp default_per_page max_per_page (coalesce per_page (pos default_per_page));
}

unfoldable pub offset : Params → ℕ
offset p = (p.page - 1) * p.per_page

-- The pages of NewResult. A page of no rows would panic; FromRequest makes none.
unfoldable pub total_pages : Params → ℕ → ℕ
total_pages p total = let n = total / p.per_page in if total % p.per_page == 0 then n else suc n

clamp_bounds : (d m : ℕ) (x : ℤ) → 1 ≤ d → d ≤ m → (1 ≤ clamp d m x) × (clamp d m x ≤ m)
clamp_bounds d m x h k = ground (arith, h, k)

-- The parameters of every request: a page from 1 to 1000000 of 1 to 100 rows, so that the offset is
-- below 2^31 and fits an int on every machine.
pub from_request_bounds :
    (page per_page : Option ℤ)
    → (1 ≤ (from_request page per_page).page)
      × ((from_request page per_page).page ≤ 1000000)
      × (1 ≤ (from_request page per_page).per_page)
      × ((from_request page per_page).per_page ≤ 100)
      × (offset (from_request page per_page) < 2147483648)
unfolding from_request offset
from_request_bounds page per_page =
    let p = clamp_bounds 1 max_page (coalesce page (pos 1)) (omega arith) (omega arith) in
    let r =
      clamp_bounds default_per_page max_per_page (coalesce per_page (pos default_per_page))
        (omega arith) (omega arith) in
    (p.0, p.1, r.0, r.1, le_trans (small _ _ p.1 r.1) (omega arith))
  where
    small : (n k : ℕ) → n ≤ max_page → k ≤ max_per_page → suc ((n - 1) * k) ≤ 100000001
    small n k a b = omega (arith, mul-le-mul_left (n - 1) b, a)

-- The pages of k rows that n rows take.
pages_cover :
    (n k : ℕ)
    → 0 < k
    → (n ≤ (if n % k == 0 then n / k else suc (n / k)) * k)
      × ((if n % k == 0 then n / k else suc (n / k)) * k < n + k)
pages_cover n k h = elim (Bool-cases (n % k == 0)) [
  | inl e ↦ rw e (ground (arith, e, whole), ground (arith, e, whole, h))
  | inr e ↦
      rw e (ground (arith, e, whole, more, mod-lt n h), ground (arith, e, whole, more, mod-lt n h))
]
  where
    whole : n / k * k + n % k ≡ n
    whole = ground (arith, div_any n k, mul_comm (n / k) k)

    more : suc (n / k) * k ≡ n / k * k + k
    more = omega arith

-- The pages cover the rows, and no page is empty: every row stands on one of them, and the last
-- page has a row.
total_pages_cover :
    (page per_page : Option ℤ) (total : ℕ)
    → (total
        ≤ total_pages (from_request page per_page) total * (from_request page per_page).per_page)
      × (total_pages (from_request page per_page) total * (from_request page per_page).per_page
          < total + (from_request page per_page).per_page)
unfolding total_pages
total_pages_cover page per_page total =
    pages_cover total (from_request page per_page).per_page (from_request_bounds page per_page).2
