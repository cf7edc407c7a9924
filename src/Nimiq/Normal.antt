-- ===== src/Nimiq/Normal.antt =====
-- The normal form of an address is a normal form, and a computed checksum is accepted.
use mathlib.Core.List.{reverse-reverse, reverse_aux}
use nim_near.Prelude.{
  ℕ, ◌≡◌, refl, ap, sym, ◌∙◌, inl, inr, Bool, true, ◌&&◌, ◌||◌, some, [], ◌∷◌, ◌++◌, reverse, arith,
  leb, ◌==◌, Text, to_upper, remove_spaces, trim_space, trim_left, is_space, All, All-split,
  All-reverse, All-mono, Bool-cases, Option-cases,
}
use nim_near.Nimiq.Address.{
  compact_address, iban_step, iban_from, iban_mod97, head4, drop4, format_groups, is_address,
  has_checksum, normalize_user_friendly_address,
}

-- Capital letters and digits: what the checksum can read.
abbrev is_plain : ℕ → Bool
is_plain c = (leb b'0' c && leb c b'9') || (leb b'A' c && leb c b'Z')

abbrev IsPlain : Text → Type 0
IsPlain = All (λ c. is_plain c ≡ true)

iban_from-IsPlain : (r : ℕ) (s : Text) {m : ℕ} → iban_from r s ≡ some m → IsPlain s
unfolding iban_from
iban_from-IsPlain r [] h = tt
iban_from-IsPlain r (c ∷ s) {m} h = elim (Option-cases (iban_step r c)) [
  | inl e ↦ ground (arith, e)
  | inr (k, e) ↦ (ground (arith, e), iban_from-IsPlain k s {m = m} (ground (arith, e, h)))
]

-- Plain or a space.
abbrev is_spaced : ℕ → Bool
is_spaced c = is_plain c || c == b' '

abbrev IsSpaced : Text → Type 0
IsSpaced = All (λ c. is_spaced c ≡ true)

remove_spaces-append : (s t : Text) → remove_spaces (s ++ t) ≡ remove_spaces s ++ remove_spaces t
unfolding remove_spaces
remove_spaces-append [] t = refl
remove_spaces-append (c ∷ s) t = ground (arith, remove_spaces-append s t)

remove_spaces-trim_left : (s : Text) → IsSpaced s → remove_spaces (trim_left s) ≡ remove_spaces s
unfolding remove_spaces trim_left
remove_spaces-trim_left [] h = refl
remove_spaces-trim_left (c ∷ s) h = ground (arith, remove_spaces-trim_left s h.1)

remove_spaces-plain : (s : Text) → IsPlain s → remove_spaces s ≡ s
unfolding remove_spaces
remove_spaces-plain [] h = refl
remove_spaces-plain (c ∷ s) h = ground (arith, remove_spaces-plain s h.1)

to_upper-plain : (s : Text) → IsPlain s → to_upper s ≡ s
unfolding to_upper
to_upper-plain [] h = refl
to_upper-plain (c ∷ s) h = ground (arith, to_upper-plain s h.1)

remove_spaces-format_groups : (s : Text) → remove_spaces (format_groups s) ≡ remove_spaces s
unfolding remove_spaces format_groups
remove_spaces-format_groups (a ∷ b ∷ c ∷ d ∷ e ∷ s) =
    ground (arith, remove_spaces-format_groups (e ∷ s))
remove_spaces-format_groups s = refl

format_groups-IsSpaced : (s : Text) → IsPlain s → IsSpaced (format_groups s)
unfolding format_groups
format_groups-IsSpaced (a ∷ b ∷ c ∷ d ∷ e ∷ s) h =
    ground (arith, h.0, h.1.0, h.1.1.0, h.1.1.1.0, format_groups-IsSpaced (e ∷ s) (h.1.1.1.1))
format_groups-IsSpaced s h =
    All-mono {P = λ c. is_plain c ≡ true} {Q = λ c. is_spaced c ≡ true} s (λ c k. ground (arith, k))
      h

remove_spaces-reverse_aux :
    (s acc : Text)
    → remove_spaces (reverse_aux s acc) ≡ reverse_aux (remove_spaces s) (remove_spaces acc)
unfolding remove_spaces
remove_spaces-reverse_aux [] acc = refl
remove_spaces-reverse_aux (c ∷ s) acc = elim (Bool-cases (c == b' ')) [
  | inl e ↦ rw e (remove_spaces-reverse_aux s (c ∷ acc) ∙ rw e refl)
  | inr e ↦ rw e (remove_spaces-reverse_aux s (c ∷ acc) ∙ rw e refl)
]

remove_spaces-reverse : (s : Text) → remove_spaces (reverse s) ≡ reverse (remove_spaces s)
unfolding remove_spaces
remove_spaces-reverse s = remove_spaces-reverse_aux s []

trim_left-IsSpaced : (s : Text) → IsSpaced s → IsSpaced (trim_left s)
unfolding trim_left
trim_left-IsSpaced [] h = tt
trim_left-IsSpaced (c ∷ s) h = elim (Bool-cases (is_space c)) [
  | inl e ↦ rw e (trim_left-IsSpaced s h.1)
  | inr e ↦ rw e h
]

remove_spaces-trim_space : (s : Text) → IsSpaced s → remove_spaces (trim_space s) ≡ remove_spaces s
unfolding trim_space
remove_spaces-trim_space s h =
    remove_spaces-reverse (trim_left (reverse (trim_left s)))
    ∙ ap reverse (
        remove_spaces-trim_left (reverse (trim_left s))
          (All-reverse _ (trim_left s) (trim_left-IsSpaced s h)))
    ∙ ap reverse (remove_spaces-reverse (trim_left s))
    ∙ reverse-reverse (remove_spaces (trim_left s))
    ∙ remove_spaces-trim_left s h

-- The checksum reads every byte of a compact address.
has_checksum-IsPlain : (k : Text) → has_checksum k ≡ true → IsPlain k
unfolding iban_mod97
has_checksum-IsPlain k h = elim (Option-cases (iban_mod97 (drop4 k ++ head4 k))) [
  | inl e ↦ ground (arith, e)
  | inr (m, e) ↦ swap k (iban_from-IsPlain 0 (drop4 k ++ head4 k) {m = m} e)
]
  where
    swap : (k : Text) → IsPlain (drop4 k ++ head4 k) → IsPlain k
    swap (a ∷ b ∷ c ∷ d ∷ s) p =
        let (q, r) = All-split _ s (a ∷ b ∷ c ∷ d ∷ []) p in
        (r.0, (r.1.0, (r.1.1.0, (r.1.1.1.0, q))))
    swap [] p = p
    swap (a ∷ []) p = p
    swap (a ∷ b ∷ []) p = p
    swap (a ∷ b ∷ c ∷ []) p = p

compact_address-format_groups : (k : Text) → IsPlain k → compact_address (format_groups k) ≡ k
unfolding compact_address
compact_address-format_groups k p =
    ap to_upper (
      remove_spaces-trim_space (format_groups k) (format_groups-IsSpaced k p)
      ∙ remove_spaces-format_groups k
      ∙ remove_spaces-plain k p)
    ∙ to_upper-plain k p

-- What the test of the normal form says of a compact address.
is_address-IsPlain : (k : Text) → is_address k ≡ true → IsPlain k
unfolding is_address
is_address-IsPlain k h = has_checksum-IsPlain k (ground arith)

compact_address-normal : (k : Text) → is_address k ≡ true → compact_address (format_groups k) ≡ k
compact_address-normal k h = compact_address-format_groups k (is_address-IsPlain k h)

-- A normalized address stands for the same address as the text, and is its own normal form.
pub normalize_user_friendly_address_idem :
    (s t : Text)
    → normalize_user_friendly_address s ≡ some t
    → (compact_address t ≡ compact_address s) × (normalize_user_friendly_address t ≡ some t)
unfolding normalize_user_friendly_address
normalize_user_friendly_address_idem s t h = elim (Bool-cases (is_address (compact_address s))) [
  | inl e ↦
      let found : format_groups (compact_address s) ≡ t = ground (arith, e, h) in
      let same : compact_address t ≡ compact_address s =
        ap compact_address (sym found) ∙ compact_address-normal (compact_address s) e in
      (same, rw (same, e) (ap some found))
  | inr e ↦ ground (arith, e, h)
]
