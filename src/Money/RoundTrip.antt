-- ===== src/Money/RoundTrip.antt =====
-- Reading back what the printers write.
use mathlib.Core.List.{reverse-reverse}
use nim_near.Prelude.{
  ℕ, zero, suc, ◌+◌, ◌-◌, ◌*◌, ◌/◌, ◌%◌, ◌≤◌, ◌<◌, ◌≡◌, ◌≢◌, refl, ap, sym, ◌∙◌, inl, inr, true,
  false, ◌&&◌, none, some, [], ◌∷◌, ◌++◌, arith, ◌==◌, if◌then◌else◌, Text, is_empty, is_space,
  trim_left, trim_space, reverse, length, replicate, Bool-cases, All, All-append, All-mono,
  All-reverse, ok, Error, plain, coded, validation, invalid_amount, ◌>>=◌,
}
use nim_near.Money.Decimal.{
  digits, value, value-padded, value-format_int, format_int, padded, IsDigits, format_int-IsDigits,
  format_int-ne-nil, padded-IsDigits,
}
use nim_near.Money.Amounts.{
  lunas_per_nim, max_int64, split_point, all_digits, scale, total_lunas, parse_total,
  parse_price_lunas, parse_amount_lunas, trim_zeros, format_nim, format_price_nim,
}
use nim_near.Money.Printed.{last_five, format_nim-format_price_nim}

split_point-digits : (s : Text) → IsDigits s → split_point s ≡ (s, none)
unfolding split_point
split_point-digits [] h = refl
split_point-digits (c ∷ s) h = ground (arith, split_point-digits s h.1)

split_point-append : (s t : Text) → IsDigits s → split_point (s ++ b'.' ∷ t) ≡ (s, some t)
unfolding split_point
split_point-append [] t h = refl
split_point-append (c ∷ s) t h = ground (arith, split_point-append s t h.1)

pub IsDigits-all_digits : (s : Text) → IsDigits s → all_digits s ≡ true
unfolding all_digits
IsDigits-all_digits [] h = refl
IsDigits-all_digits (c ∷ s) h = ground (arith, IsDigits-all_digits s h.1)

-- A text without spaces is not trimmed.
abbrev pub IsSolid : Text → Type 0
IsSolid = All (λ c. is_space c ≡ false)

trim_left-solid : (s : Text) → IsSolid s → trim_left s ≡ s
unfolding trim_left
trim_left-solid [] h = refl
trim_left-solid (c ∷ s) h = ground arith

pub trim_space-solid : (s : Text) → IsSolid s → trim_space s ≡ s
unfolding trim_space
trim_space-solid s h =
    rw (trim_left-solid s h, trim_left-solid (reverse s) (All-reverse _ s h), reverse-reverse s)
      refl

pub IsDigits-IsSolid : (s : Text) → IsDigits s → IsSolid s
IsDigits-IsSolid s = All-mono s (λ c h. ground arith)

trim_zeros-IsDigits : (s : Text) → IsDigits s → IsDigits (trim_zeros s)
unfolding trim_zeros
trim_zeros-IsDigits [] h = tt
trim_zeros-IsDigits (c ∷ s) h = ground (arith, trim_zeros-IsDigits s h.1)

length-trim_zeros : (s : Text) → length (trim_zeros s) ≤ length s
unfolding trim_zeros
length-trim_zeros [] = omega arith
length-trim_zeros (c ∷ s) = ground (arith, length-trim_zeros s)

restore :
    (c : ℕ) (s t : Text)
    → t ++ replicate (length s - length t) b'0' ≡ s
    → let u = if is_empty t && c == b'0' then [] else c ∷ t in
      u ++ replicate (suc (length s) - length u) b'0' ≡ c ∷ s
restore c s [] h = elim (Bool-cases (c == b'0')) [
  | inl e ↦ rw e (ground (arith, e))
  | inr e ↦ rw e (ground (arith, e))
]
restore c s (x ∷ t) h = ground arith

-- The trimmed zeros come back by scaling.
trim_zeros-replicate :
    (s : Text) → trim_zeros s ++ replicate (length s - length (trim_zeros s)) b'0' ≡ s
unfolding trim_zeros
trim_zeros-replicate [] = refl
trim_zeros-replicate (c ∷ s) = restore c s (trim_zeros s) (trim_zeros-replicate s)

-- A text of zeros is worth zero.
trim_zeros-value : (s : Text) → trim_zeros s ≡ [] → value s 0 ≡ 0
unfolding trim_zeros value
trim_zeros-value [] h = refl
trim_zeros-value (c ∷ s) h = ground (arith, trim_zeros-value s)

ne-nil-is_empty : (s : Text) → s ≢ [] → is_empty s ≡ false
ne-nil-is_empty [] h = absurd (h refl)
ne-nil-is_empty (c ∷ s) h = refl

module _ (e : Error) (s : Text) (digits : IsDigits s) (written : s ≢ []) where
  parse_total-whole : parse_total e (s, none) ≡ ok (value s 0 * lunas_per_nim)
  unfolding parse_total ◌>>=◌ value
  parse_total-whole =
      rw (ne-nil-is_empty s written, IsDigits-all_digits s digits) (ap ok (omega arith))

  parse_total-fraction :
      (t : Text)
      → IsDigits t
      → t ≢ []
      → length t ≤ 5
      → parse_total e (s, some t) ≡ ok (total_lunas s t)
  unfolding parse_total ◌>>=◌
  parse_total-fraction t h k short = ground (
    arith,
    ne-nil-is_empty s written,
    IsDigits-all_digits s digits,
    ne-nil-is_empty t k,
    IsDigits-all_digits t h,
  )

length-padded : (f : ℕ) → f < lunas_per_nim → length (padded 5 f) ≡ 5
unfolding padded digits
length-padded f h = rw low refl
  where
    low : f / 10 / 10 / 10 / 10 / 10 ≡ 0
    low = omega arith

-- The decimals of a printed amount.
module _ (f : ℕ) (small : f < lunas_per_nim) (some_left : 0 < f) where
  fraction-IsDigits : IsDigits (trim_zeros (padded 5 f))
  fraction-IsDigits = trim_zeros-IsDigits (padded 5 f) (padded-IsDigits 5 f)

  fraction_written : trim_zeros (padded 5 f) ≢ []
  fraction_written h = omega (arith, trim_zeros-value (padded 5 f) h, value-padded 5 f)

  fraction_short : length (trim_zeros (padded 5 f)) ≤ 5
  fraction_short = omega (arith, length-trim_zeros (padded 5 f), length-padded f small)

  fraction_value : value (scale (trim_zeros (padded 5 f))) 0 ≡ f
  fraction_value =
      ap
        (λ (n : ℕ).
          value (trim_zeros (padded 5 f) ++ replicate (n - length (trim_zeros (padded 5 f))) b'0')
            0)
        (sym (length-padded f small))
      ∙ ap (λ (t : Text). value t 0) (trim_zeros-replicate (padded 5 f))
      ∙ value-padded 5 f

-- Both parsers find the printed amount as their total.
module _ (e : Error) (n : ℕ) where
  printed_whole : parse_total e (split_point (trim_space (format_int n))) ≡ ok (n * lunas_per_nim)
  printed_whole =
      let h = format_int-IsDigits n in
      rw
        (
          trim_space-solid (format_int n) (IsDigits-IsSolid _ h),
          split_point-digits _ h,
          parse_total-whole e (format_int n) h (format_int-ne-nil n),
          value-format_int n,
        )
        refl

  printed_fraction :
      (f : ℕ)
      → f < lunas_per_nim
      → 0 < f
      → parse_total e (split_point (trim_space (format_int n ++ b'.' ∷ trim_zeros (padded 5 f))))
        ≡ ok (n * lunas_per_nim + f)
  printed_fraction f small left =
      let h = format_int-IsDigits n in
      let k = fraction-IsDigits f small left in
      rw
        (
          trim_space-solid (format_int n ++ b'.' ∷ trim_zeros (padded 5 f))
              (All-append _ (format_int n) _ (IsDigits-IsSolid _ h) (refl, IsDigits-IsSolid _ k)),
          split_point-append (format_int n) (trim_zeros (padded 5 f)) h,
          parse_total-fraction e (format_int n) h (format_int-ne-nil n) (trim_zeros (padded 5 f)) k
              (fraction_written f small left) (fraction_short f small left),
          value-format_int n,
          fraction_value f small left,
        )
        refl

printed_total :
    (e : Error) (lunas : ℕ)
    → 0 < lunas
    → parse_total e (split_point (trim_space (format_nim lunas))) ≡ ok lunas
unfolding format_nim
printed_total e lunas h = elim (Bool-cases (lunas % lunas_per_nim == 0)) [
  | inl whole ↦
      rw (is_positive, whole) (printed_whole e (lunas / lunas_per_nim) ∙ ap ok (ground arith))
  | inr left ↦
      rw (is_positive, left, last_five (lunas % lunas_per_nim) (omega arith))
        (printed_fraction e (lunas / lunas_per_nim) (lunas % lunas_per_nim) (omega arith)
            (ground arith)
          ∙ ap ok (omega arith))
]
  where
    is_positive : (lunas == 0) ≡ false
    is_positive = ground arith

-- What has a total is not empty.
total-is_empty :
    (e : Error) (s : Text) (n : ℕ) → parse_total e (split_point s) ≡ ok n → is_empty s ≡ false
unfolding parse_total split_point ◌>>=◌
total-is_empty e [] n h = cc
total-is_empty e (c ∷ s) n h = refl

-- Every positive amount that fits an int64 is read back from its print: parseAmountLunas of
-- formatNIM.
pub parse_amount_lunas-format_nim :
    (lunas : ℕ) → 0 < lunas → lunas ≤ max_int64 → parse_amount_lunas (format_nim lunas) ≡ ok lunas
unfolding parse_amount_lunas ◌>>=◌
parse_amount_lunas-format_nim lunas h fits =
    let total = printed_total (coded validation invalid_amount) lunas h in
    rw (total-is_empty _ (trim_space (format_nim lunas)) lunas total, total) (ground arith)

parse_price_lunas-format_nim :
    (lunas : ℕ) → 0 < lunas → lunas ≤ max_int64 → parse_price_lunas (format_nim lunas) ≡ ok lunas
unfolding parse_price_lunas ◌>>=◌
parse_price_lunas-format_nim lunas h fits =
    let total = printed_total (plain validation) lunas h in
    rw (total-is_empty _ (trim_space (format_nim lunas)) lunas total, total) (ground arith)

free_price : parse_price_lunas (format_price_nim 0) ≡ ok 0
unfolding parse_price_lunas format_price_nim parse_total split_point trim_space value ◌>>=◌
    all_digits
free_price = refl

-- Every price that fits an int64 is read back from its print: parsePriceLunas of formatPriceNIM.
pub parse_price_lunas-format_price_nim :
    (lunas : ℕ) → lunas ≤ max_int64 → parse_price_lunas (format_price_nim lunas) ≡ ok lunas
parse_price_lunas-format_price_nim zero fits = free_price
parse_price_lunas-format_price_nim (suc n) fits =
    ap parse_price_lunas (sym (format_nim-format_price_nim (suc n)))
    ∙ parse_price_lunas-format_nim (suc n) (omega arith) fits

-- An amount that parseAmountLunas accepts is positive and fits an int64.
pub parse_amount_lunas_bounds :
    (raw : Text) (lunas : ℕ) → parse_amount_lunas raw ≡ ok lunas → (0 < lunas) × (lunas ≤ max_int64)
unfolding parse_amount_lunas ◌>>=◌
parse_amount_lunas_bounds raw lunas h = ground arith
