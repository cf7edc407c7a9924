-- ===== src/Tests/Money.antt =====
-- Amounts and addresses of the repository's tests.
use nim_near.Prelude.{
  ◌≡◌, refl, codes, some, none, ok, any, trim_space, to_upper, remove_spaces, arith, ◌<◌, ◌≤◌,
  ◌>>=◌, ℕ,
}
use nim_near.Money.Decimal.{value, format_int, digits}
use nim_near.Money.Amounts.{
  parse_amount_lunas, parse_price_lunas, format_nim, format_price_nim, parse_total, split_point,
  all_digits, trim_zeros,
}
use nim_near.Money.RoundTrip.{parse_amount_lunas-format_nim, parse_price_lunas-format_price_nim}
use nim_near.Nimiq.Address.{
  normalize_user_friendly_address, compact_address, iban_from, iban_mod97, format_groups,
  all_in_alphabet, in_alphabet, is_address,
}
use nim_near.Nimiq.Normal.{normalize_user_friendly_address_idem}

abbrev pub loose_address : nim_near.Prelude.Text
loose_address = codes "nq46klje5tmf4y1a1255cjhjyg1sh0nut604"

abbrev pub official : nim_near.Prelude.Text
official = codes "NQ46 KLJE 5TMF 4Y1A 1255 CJHJ YG1S H0NU T604"

official_address : normalize_user_friendly_address loose_address ≡ some official
unfolding normalize_user_friendly_address compact_address iban_from iban_mod97 format_groups
    all_in_alphabet in_alphabet any trim_space to_upper remove_spaces is_address
official_address = refl

wrong_checksum :
    normalize_user_friendly_address (codes "NQ46 KLJE 5TMF 4Y1A 1255 CJHJ YG1S H0NU T605") ≡ none
unfolding normalize_user_friendly_address compact_address iban_from iban_mod97 format_groups
    all_in_alphabet in_alphabet any trim_space to_upper remove_spaces is_address
wrong_checksum = refl

normalize_user_friendly_address_idem_example :
    (compact_address official ≡ compact_address loose_address)
    × (normalize_user_friendly_address official ≡ some official)
normalize_user_friendly_address_idem_example =
    normalize_user_friendly_address_idem loose_address official official_address

printed_amount : format_nim 1234500 ≡ codes "12.345"
unfolding format_nim format_int digits trim_zeros
printed_amount = refl

parse_amount_lunas-format_nim_example : parse_amount_lunas (format_nim 1234500) ≡ ok 1234500
parse_amount_lunas-format_nim_example =
    parse_amount_lunas-format_nim 1234500 (omega arith) (omega arith)

parse_price_lunas-format_price_nim_example :
    parse_price_lunas (format_price_nim 1234500) ≡ ok 1234500
parse_price_lunas-format_price_nim_example =
    parse_price_lunas-format_price_nim 1234500 (omega arith)

smallest_amount : parse_amount_lunas (codes " 0.00001") ≡ ok 1
unfolding parse_amount_lunas parse_total split_point all_digits value trim_space ◌>>=◌
smallest_amount = refl
