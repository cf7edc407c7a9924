-- ===== src/Nimiq/Uint64.antt =====
-- The numbers of the node: uint64Value.UnmarshalJSON reads back what a decimal printer writes.
use mathlib.Core.List.{reverse-append, reverse-reverse}
use nim_near.Prelude.{
  ℕ, ◌^◌, ◌≡◌, ◌≢◌, refl, ap, ◌∙◌, false, none, some, [], ◌∷◌, ◌++◌, reverse, arith, Text, codes,
  text_eq, trim_space, is_empty, ltb, All-append, All-reverse, Option, if◌then◌else◌,
}
use nim_near.Money.Decimal.{
  format_int, format_int-IsDigits, format_int-ne-nil, value, value-format_int, IsDigits,
}
use nim_near.Money.RoundTrip.{trim_space-solid, IsSolid, IsDigits-IsSolid, IsDigits-all_digits}
use nim_near.Nimiq.Wire.{trim_quotes_left, trim_quotes, parse_uint64, unmarshal_uint64}

abbrev pub quoted : Text → Text
quoted s = 34 ∷ s ++ 34 ∷ []

trim_quotes_left-digits : (s t : Text) → IsDigits s → s ≢ [] → trim_quotes_left (s ++ t) ≡ s ++ t
unfolding trim_quotes_left
trim_quotes_left-digits [] t h w = absurd (w refl)
trim_quotes_left-digits (c ∷ s) t h w = ground (arith, h.0)

trim_quotes_left-all : (s : Text) → IsDigits s → trim_quotes_left s ≡ s
unfolding trim_quotes_left
trim_quotes_left-all [] h = refl
trim_quotes_left-all (c ∷ s) h = ground (arith, h.0)

trim_quotes-plain : (s : Text) → IsDigits s → trim_quotes s ≡ s
unfolding trim_quotes
trim_quotes-plain s h =
    rw
      (
        trim_quotes_left-all s h,
        trim_quotes_left-all (reverse s) (All-reverse _ s h),
        reverse-reverse s,
      )
      refl

trim_quotes-quoted : (s : Text) → IsDigits s → s ≢ [] → trim_quotes (quoted s) ≡ s
unfolding trim_quotes trim_quotes_left
trim_quotes-quoted s h w =
    ap (λ (u : Text). reverse (trim_quotes_left (reverse u)))
      (trim_quotes_left-digits s (34 ∷ []) h w)
    ∙ ap (λ (u : Text). reverse (trim_quotes_left u)) (reverse-append s (34 ∷ []))
    ∙ ap reverse (trim_quotes_left-all (reverse s) (All-reverse _ s h))
    ∙ reverse-reverse s

digits-null : (s : Text) → IsDigits s → text_eq s (codes "null") ≡ false
unfolding text_eq
digits-null [] h = refl
digits-null (c ∷ s) h = ground (arith, h.0)

written-is_empty : (s : Text) → s ≢ [] → is_empty s ≡ false
written-is_empty [] w = absurd (w refl)
written-is_empty (c ∷ s) w = refl

-- Digits between quotes or not, after the trimming.
unmarshal_uint64-digits :
    (raw s : Text)
    → trim_quotes (trim_space raw) ≡ s
    → IsDigits s
    → s ≢ []
    → unmarshal_uint64 raw ≡ parse_uint64 s
unfolding unmarshal_uint64
unmarshal_uint64-digits raw s e h w = rw (e, written-is_empty s w, digits-null s h) refl

parse_uint64-digits :
    (s : Text)
    → IsDigits s
    → s ≢ []
    → parse_uint64 s ≡ (if ltb (value s 0) (2 ^ 64) then some (value s 0) else none)
unfolding parse_uint64
parse_uint64-digits s h w = rw (written-is_empty s w, IsDigits-all_digits s h) refl

quoted-IsSolid : (s : Text) → IsDigits s → IsSolid (quoted s)
quoted-IsSolid s h = (refl, All-append _ s (34 ∷ []) (IsDigits-IsSolid s h) (refl, tt))

-- The value of a 64-bit number.
abbrev pub uint64 : ℕ → Option ℕ
uint64 n = if ltb n (2 ^ 64) then some n else none

unmarshal_uint64-plain : (n : ℕ) → unmarshal_uint64 (format_int n) ≡ uint64 n
unmarshal_uint64-plain n =
    let h = format_int-IsDigits n in
    let w = format_int-ne-nil n in
    unmarshal_uint64-digits (format_int n) (format_int n)
      (ap trim_quotes (trim_space-solid _ (IsDigits-IsSolid _ h)) ∙ trim_quotes-plain _ h) h w
    ∙ parse_uint64-digits (format_int n) h w
    ∙ ap uint64 (value-format_int n)

unmarshal_uint64-quoted : (n : ℕ) → unmarshal_uint64 (quoted (format_int n)) ≡ uint64 n
unmarshal_uint64-quoted n =
    let h = format_int-IsDigits n in
    let w = format_int-ne-nil n in
    unmarshal_uint64-digits (quoted (format_int n)) (format_int n)
      (ap trim_quotes (trim_space-solid _ (quoted-IsSolid _ h)) ∙ trim_quotes-quoted _ h w) h w
    ∙ parse_uint64-digits (format_int n) h w
    ∙ ap uint64 (value-format_int n)

-- uint64Value reads a number in decimal, as a JSON number or in quotes, exactly when it is below
-- 2^64, and then as itself.
pub unmarshal_uint64-format_int :
    (n : ℕ)
    → (unmarshal_uint64 (format_int n) ≡ uint64 n)
      × (unmarshal_uint64 (quoted (format_int n)) ≡ uint64 n)
unmarshal_uint64-format_int n = (unmarshal_uint64-plain n, unmarshal_uint64-quoted n)
