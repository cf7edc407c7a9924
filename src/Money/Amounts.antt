-- ===== src/Money/Amounts.antt =====
-- The parsers of prices and amounts, and the two printers.
use nim_near.Prelude.{
  ℕ, ◌+◌, ◌-◌, ◌*◌, ◌/◌, ◌%◌, ◌^◌, Bool, true, not, ◌&&◌, Option, none, some, [], ◌∷◌, ◌++◌, leb,
  ◌==◌, if◌then◌else◌, Text, length, is_empty, trim_space, replicate, Result, ok, Error, plain,
  coded, validation, invalid_amount, amount_too_large, require, ◌>>=◌, ◌>>◌,
}
use nim_near.Money.Decimal.{is_digit, value, format_int, padded}

abbrev pub lunas_per_nim : ℕ
lunas_per_nim = 100000

abbrev pub max_int64 : ℕ
max_int64 = 2 ^ 63 - 1

-- strings.SplitN(s, ".", 2): the part before the first point, and the one after it if there is one.
unfoldable pub split_point : Text → Text × Option Text
split_point [] = ([], none)
split_point (c ∷ s) =
    let (before, after) = split_point s in if c == b'.' then ([], some s) else (c ∷ before, after)

unfoldable pub all_digits : Text → Bool
all_digits [] = true
all_digits (c ∷ s) = is_digit c && all_digits s

-- [0-9]+
abbrev pub is_number : Text → Bool
is_number s = not (is_empty s) && all_digits s

abbrev pub is_fraction : Option Text → Bool
is_fraction none = true
is_fraction (some s) = is_number s

-- ^[0-9]+(?:\.[0-9]+)?$
abbrev pub is_decimal : Text × Option Text → Bool
is_decimal (before, after) = is_number before && is_fraction after

abbrev pub fraction_of : Option Text → Text
fraction_of none = []
fraction_of (some s) = s

-- fraction + strings.Repeat("0", 5-len(fraction))
abbrev pub scale : Text → Text
scale fraction = fraction ++ replicate (5 - length fraction) b'0'

-- integerPart * LunasPerNIM + fractionPart, in big.Int.
abbrev pub total_lunas : Text → Text → ℕ
total_lunas whole fraction = value whole 0 * lunas_per_nim + value (scale fraction) 0

-- The part of both parsers up to the total: `e` is the error of a malformed text.
unfoldable pub parse_total : Error → Text × Option Text → Result ℕ
parse_total e (before, after) = do
  require (is_decimal (before, after)) e
  require (leb (length (fraction_of after)) 5) e
  ok (total_lunas before (fraction_of after))

-- parsePriceLunas: an empty price is free.
unfoldable pub parse_price_lunas : Text → Result ℕ
parse_price_lunas raw = if is_empty (trim_space raw) then ok 0 else (do
  total ← parse_total (plain validation) (split_point (trim_space raw))
  require (leb total max_int64) (plain validation)
  ok total)

-- parseAmountLunas: an amount is written and positive.
unfoldable pub parse_amount_lunas : Text → Result ℕ
parse_amount_lunas raw = do
  require (not (is_empty (trim_space raw))) (coded validation invalid_amount)
  total ← parse_total (coded validation invalid_amount) (split_point (trim_space raw))
  require (not (total == 0)) (coded validation invalid_amount)
  require (leb total max_int64) (coded validation amount_too_large)
  ok total

-- strings.TrimRight(s, "0"), which the loop of formatNIM writes out.
unfoldable pub trim_zeros : Text → Text
trim_zeros [] = []
trim_zeros (c ∷ s) = let rest = trim_zeros s in if is_empty rest && c == b'0' then [] else c ∷ rest

-- s[1:], which panics on an empty text; the texts here start with a digit.
abbrev pub tail : Text → Text
tail [] = []
tail (c ∷ s) = s

-- formatPriceNIM
unfoldable pub format_price_nim : ℕ → Text
format_price_nim lunas =
    if lunas == 0
    then b'0' ∷ []
    else if lunas % lunas_per_nim == 0
    then format_int (lunas / lunas_per_nim)
    else trim_zeros (format_int (lunas / lunas_per_nim) ++ b'.' ∷ padded 5 (lunas % lunas_per_nim))

-- formatNIM
unfoldable pub format_nim : ℕ → Text
format_nim lunas =
    if lunas == 0
    then b'0' ∷ []
    else if lunas % lunas_per_nim == 0
    then format_int (lunas / lunas_per_nim)
    else format_int (lunas / lunas_per_nim)
      ++ b'.' ∷ trim_zeros (tail (format_int (lunas % lunas_per_nim + lunas_per_nim)))
