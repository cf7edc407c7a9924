-- ===== src/Money/Printed.antt =====
-- The two printers of amounts agree.
use nim_near.Prelude.{
  ℕ, ◌+◌, ◌/◌, ◌%◌, ◌≤◌, ◌<◌, ◌≡◌, refl, ap, false, [], ◌∷◌, ◌++◌, arith, Text, is_empty,
}
use nim_near.Money.Decimal.{digits, format_int, padded, digits-padded}
use nim_near.Money.Amounts.{lunas_per_nim, trim_zeros, tail, format_price_nim, format_nim}

padded_zero : (n : ℕ) → digits n n ≡ padded 0 n
unfolding padded
padded_zero n = refl

leading_digits : (n : ℕ) → 100000 ≤ n → digits n n ≡ padded 5 n
leading_digits n h = digits-padded 4 n (omega arith) (
    digits-padded 3 (n / 10) (omega arith) (
      digits-padded 2 (n / 10 / 10) (omega arith) (
        digits-padded 1 (n / 10 / 10 / 10) (omega arith)
          (digits-padded 0 (n / 10 / 10 / 10 / 10) (omega arith) (padded_zero _)))))

-- A number of six digits that starts with 1.
padded_six : (f : ℕ) → f < lunas_per_nim → padded 5 (f + lunas_per_nim) ≡ b'1' ∷ padded 5 f
unfolding padded digits
padded_six f h = rw (high, low) (ground arith)
  where
    high : (f + lunas_per_nim) / 10 / 10 / 10 / 10 / 10 ≡ 1
    high = omega arith

    low : f / 10 / 10 / 10 / 10 / 10 ≡ 0
    low = omega arith

six_digits : (f : ℕ) → f < lunas_per_nim → format_int (f + lunas_per_nim) ≡ b'1' ∷ padded 5 f
unfolding format_int
six_digits f h = ground (arith, leading_digits (f + lunas_per_nim), padded_six f h)

-- Its last five digits are those of %05d.
pub last_five : (f : ℕ) → f < lunas_per_nim → tail (format_int (f + lunas_per_nim)) ≡ padded 5 f
last_five f h = ap tail (six_digits f h)

not_empty : (s t : Text) → is_empty (s ++ b'.' ∷ t) ≡ false
not_empty [] t = refl
not_empty (c ∷ s) t = refl

-- Zeros are trimmed after the point only.
trim_zeros-append : (s t : Text) → trim_zeros (s ++ b'.' ∷ t) ≡ s ++ b'.' ∷ trim_zeros t
unfolding trim_zeros
trim_zeros-append [] t = ground arith
trim_zeros-append (c ∷ s) t = ground (arith, trim_zeros-append s t, not_empty s (trim_zeros t))

-- formatNIM of both use cases prints an amount as formatPriceNIM prints a price.
pub format_nim-format_price_nim : (lunas : ℕ) → format_nim lunas ≡ format_price_nim lunas
unfolding format_nim format_price_nim
format_nim-format_price_nim lunas = ground (
  arith,
  last_five (lunas % lunas_per_nim),
  trim_zeros-append (format_int (lunas / lunas_per_nim)) (padded 5 (lunas % lunas_per_nim)),
)
