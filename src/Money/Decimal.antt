-- ===== src/Money/Decimal.antt =====
-- Decimal texts: strconv.FormatInt, fmt's %d and %05d, and big.Int.SetString in base ten, on
-- numbers that are not negative.
use nim_near.Prelude.{
  ℕ, zero, suc, ◌+◌, ◌-◌, ◌*◌, ◌/◌, ◌%◌, ◌≤◌, ◌<◌, ◌≡◌, refl, ap, ◌∙◌, inl, inr, Bool, true, ◌&&◌,
  [], ◌∷◌, ◌++◌, arith, leb, ◌==◌, if◌then◌else◌, Text, All, All-append, Bool-cases, ◌≢◌,
}

abbrev pub digit : ℕ → ℕ
digit n = b'0' + n % 10

-- The digits of a positive number; none for zero. The first argument is fuel, and `n` is enough.
unfoldable pub digits : ℕ → ℕ → Text
digits zero n = []
digits (suc fuel) n = let rest = digits fuel (n / 10) ++ digit n ∷ [] in if n == 0 then [] else rest

-- strconv.FormatInt(n, 10)
unfoldable pub format_int : ℕ → Text
format_int n = if n == 0 then b'0' ∷ [] else digits n n

-- %0wd: at least `w` digits.
unfoldable pub padded : ℕ → ℕ → Text
padded zero n = digits n n
padded (suc w) n = padded w (n / 10) ++ digit n ∷ []

-- SetString(s, 10) of a text of digits.
unfoldable pub value : Text → ℕ → ℕ
value [] acc = acc
value (c ∷ s) acc = value s (acc * 10 + (c - b'0'))

abbrev pub is_digit : ℕ → Bool
is_digit c = leb b'0' c && leb c b'9'

abbrev pub IsDigits : Text → Type 0
IsDigits = All (λ c. is_digit c ≡ true)

-- More fuel changes nothing.
digits_fuel : (f g n : ℕ) → n ≤ f → n ≤ g → digits f n ≡ digits g n
unfolding digits
digits_fuel zero zero n h k = refl
digits_fuel zero (suc g) n h k = ground arith
digits_fuel (suc f) zero n h k = ground arith
digits_fuel (suc f) (suc g) n h k = ground (arith, digits_fuel f g (n / 10))

digits_step : (n : ℕ) → 0 < n → digits n n ≡ digits (n / 10) (n / 10) ++ digit n ∷ []
unfolding digits
digits_step zero h = elim h [ ]
digits_step (suc m) h = ground (arith, digits_fuel m (suc m / 10) (suc m / 10))

-- A positive number needs no padding for its last digit.
pub digits-padded :
    (w n : ℕ) → 0 < n → digits (n / 10) (n / 10) ≡ padded w (n / 10) → digits n n ≡ padded (suc w) n
unfolding padded
digits-padded w n h e = digits_step n h ∙ ap (λ s. s ++ digit n ∷ []) e

pub value-append : (s t : Text) (acc : ℕ) → value (s ++ t) acc ≡ value t (value s acc)
unfolding value
value-append [] t acc = refl
value-append (c ∷ s) t acc = value-append s t (acc * 10 + (c - b'0'))

value-digits : (f n : ℕ) → n ≤ f → value (digits f n) 0 ≡ n
unfolding digits value
value-digits zero n h = omega arith
value-digits (suc f) n h =
    ground (arith, value-append (digits f (n / 10)) (digit n ∷ []) 0, value-digits f (n / 10))

pub value-padded : (w n : ℕ) → value (padded w n) 0 ≡ n
unfolding padded value
value-padded zero n = value-digits n n (omega arith)
value-padded (suc w) n =
    ground (arith, value-append (padded w (n / 10)) (digit n ∷ []) 0, value-padded w (n / 10))

pub value-format_int : (n : ℕ) → value (format_int n) 0 ≡ n
unfolding format_int value
value-format_int n = ground (arith, value-digits n n)

digit-is_digit : (n : ℕ) → is_digit (digit n) ≡ true
digit-is_digit n = ground arith

digits-IsDigits : (f n : ℕ) → IsDigits (digits f n)
unfolding digits
digits-IsDigits zero n = tt
digits-IsDigits (suc f) n = elim (Bool-cases (n == 0)) [
  | inl e ↦ rw e tt
  | inr e ↦ rw e (
      All-append _ (digits f (n / 10)) (digit n ∷ []) (digits-IsDigits f (n / 10))
        (digit-is_digit n, tt))
]

pub padded-IsDigits : (w n : ℕ) → IsDigits (padded w n)
unfolding padded
padded-IsDigits zero n = digits-IsDigits n n
padded-IsDigits (suc w) n =
    All-append _ (padded w (n / 10)) (digit n ∷ []) (padded-IsDigits w (n / 10))
      (digit-is_digit n, tt)

pub format_int-IsDigits : (n : ℕ) → IsDigits (format_int n)
unfolding format_int
format_int-IsDigits n = elim (Bool-cases (n == 0)) [
  | inl e ↦ rw e (refl, tt)
  | inr e ↦ rw e (digits-IsDigits n n)
]

snoc-ne-nil : (s : Text) (c : ℕ) → s ++ c ∷ [] ≢ []
snoc-ne-nil [] c e = cc
snoc-ne-nil (x ∷ s) c e = cc

pub format_int-ne-nil : (n : ℕ) → format_int n ≢ []
unfolding format_int
format_int-ne-nil n =
    ground (arith, digits_step n, snoc-ne-nil (digits (n / 10) (n / 10)) (digit n))
