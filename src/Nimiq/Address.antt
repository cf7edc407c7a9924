-- ===== src/Nimiq/Address.antt =====
-- backend/internal/shared/nimiq/address.go: the checksum and the normal form of a Nimiq address.
use nim_near.Prelude.{
  ℕ, ◌+◌, ◌-◌, ◌*◌, ◌%◌, Bool, true, false, ◌&&◌, Option, none, some, [], ◌∷◌, ◌++◌, leb, ◌==◌,
  if◌then◌else◌, Text, codes, length, any, exists, to_upper, remove_spaces, trim_space,
}

-- compactAddress of request.go, which the normal form starts with.
unfoldable pub compact_address : Text → Text
compact_address address = to_upper (remove_spaces (trim_space address))

abbrev pub user_friendly_alphabet : Text
user_friendly_alphabet = codes "0123456789ABCDEFGHJKLMNPQRSTUVXY"

-- strings.ContainsRune
unfoldable pub in_alphabet : ℕ → Bool
unfolding any
in_alphabet c = any (λ d. d == c) user_friendly_alphabet

unfoldable pub all_in_alphabet : Text → Bool
all_in_alphabet [] = true
all_in_alphabet (c ∷ s) = in_alphabet c && all_in_alphabet s

-- One round of the loop of ibanMod97. `none` is its result -1.
abbrev pub iban_step : ℕ → ℕ → Option ℕ
iban_step remainder c =
    if leb b'0' c && leb c b'9'
    then some ((remainder * 10 + (c - b'0')) % 97)
    else if leb b'A' c && leb c b'Z'
    then some ((remainder * 100 + (c - b'A' + 10)) % 97)
    else none

unfoldable pub iban_from : ℕ → Text → Option ℕ
iban_from remainder [] = some remainder
iban_from remainder (c ∷ s) = elim (iban_step remainder c) [ none ↦ none | some r ↦ iban_from r s ]

unfoldable pub iban_mod97 : Text → Option ℕ
iban_mod97 value = iban_from 0 value

-- value[:4] and value[4:], of a text of at least four bytes.
abbrev pub head4 : Text → Text
head4 (a ∷ b ∷ c ∷ d ∷ s) = a ∷ b ∷ c ∷ d ∷ []
head4 s = s

abbrev pub drop4 : Text → Text
drop4 (a ∷ b ∷ c ∷ d ∷ s) = s
drop4 s = []

-- formatUserFriendlyAddress: groups of four bytes. A length that is no multiple of four would
-- panic; the compact addresses have 36 bytes.
unfoldable pub format_groups : Text → Text
format_groups (a ∷ b ∷ c ∷ d ∷ e ∷ s) = a ∷ b ∷ c ∷ d ∷ b' ' ∷ format_groups (e ∷ s)
format_groups s = s

abbrev pub has_prefix_nq : Text → Bool
has_prefix_nq (a ∷ b ∷ s) = a == b'N' && b == b'Q'
has_prefix_nq s = false

-- ibanMod97(compact[4:]+compact[:4]) == 1
abbrev pub has_checksum : Text → Bool
has_checksum compact = exists (λ r. r == 1) (iban_mod97 (drop4 compact ++ head4 compact))

unfoldable pub is_address : Text → Bool
is_address compact =
    length compact == 36
    && has_prefix_nq compact
    && all_in_alphabet (drop4 compact)
    && has_checksum compact

-- `none` is one of the errors.
unfoldable pub normalize_user_friendly_address : Text → Option Text
normalize_user_friendly_address value =
    if is_address (compact_address value)
    then some (format_groups (compact_address value))
    else none
