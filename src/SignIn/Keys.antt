-- ===== src/SignIn/Keys.antt =====
-- nimiq_auth.go: keys, signatures and the address of a key. The hash functions, the check of a
-- signature and the tokens are those of other packages, and parameters.
use nim_near.Prelude.{
  ℕ, ◌+◌, ◌-◌, ◌*◌, ◌/◌, ◌%◌, Bool, true, ◌&&◌, Option, none, some, List, [], ◌∷◌, ◌++◌, zero, suc,
  leb, ◌==◌, if◌then◌else◌, length, take, Text, codes, text_eq, trim_space, Result, ok, err, coded,
  bad_request, unsupported_auth_transport,
}
use nim_near.Money.Decimal.{format_int, padded}
use nim_near.Nimiq.Address.{user_friendly_alphabet, iban_mod97, format_groups}
use nim_near.UseCases.{all_hex}

pub record Crypto : Type 0 where
  pub blake2b : Text → Text
  pub sha256 : Text → Text
  pub verify : Text → Text → Text → Bool

unfoldable pub bits_of_byte : ℕ → List ℕ
bits_of_byte c =
    c / 128 % 2
    ∷ c / 64 % 2
    ∷ c / 32 % 2
    ∷ c / 16 % 2
    ∷ c / 8 % 2
    ∷ c / 4 % 2
    ∷ c / 2 % 2
    ∷ c % 2
    ∷ []

unfoldable pub bits : Text → List ℕ
bits [] = []
bits (c ∷ s) = bits_of_byte c ++ bits s

unfoldable pub nth : ℕ → Text → ℕ
nth n [] = 0
nth zero (c ∷ s) = c
nth (suc n) (c ∷ s) = nth n s

abbrev pub letter : ℕ → ℕ → ℕ → ℕ → ℕ → ℕ
letter a b c d e = nth (a * 16 + b * 8 + c * 4 + d * 2 + e) user_friendly_alphabet

-- nimiqBase32: five bits a letter, with zeros after the last bit.
unfoldable pub letters : List ℕ → Text
letters [] = []
letters (a ∷ []) = letter a 0 0 0 0 ∷ []
letters (a ∷ b ∷ []) = letter a b 0 0 0 ∷ []
letters (a ∷ b ∷ c ∷ []) = letter a b c 0 0 ∷ []
letters (a ∷ b ∷ c ∷ d ∷ []) = letter a b c d 0 ∷ []
letters (a ∷ b ∷ c ∷ d ∷ e ∷ s) = letter a b c d e ∷ letters s

unfoldable pub nimiq_base32 : Text → Text
nimiq_base32 data_bytes = letters (bits data_bytes)

-- The checksum of a payload. ibanMod97 is -1 for a text that it cannot read, which a payload is
-- not.
abbrev pub checksum_of : Text → ℕ
checksum_of payload = elim (iban_mod97 (payload ++ codes "NQ00")) [ none ↦ 99 | some r ↦ 98 - r ]

unfoldable pub address_of_payload : Text → Text
address_of_payload payload = format_groups (codes "NQ" ++ padded 2 (checksum_of payload) ++ payload)

unfoldable pub address_from_public_key : Crypto → Text → Text
address_from_public_key crypto key =
    address_of_payload (nimiq_base32 (take 20 (crypto.blake2b key)))

abbrev pub prefix : Text
prefix = 22 ∷ codes "Nimiq Signed Message:" ++ 10 ∷ []

-- SignedBytes
unfoldable pub signed_bytes : Crypto → Text → Text → Result Text
signed_bytes crypto transport message =
    if text_eq transport (codes "mini-app")
    then ok message
    else if text_eq transport (codes "hub")
    then ok (crypto.sha256 (prefix ++ format_int (length message) ++ message))
    else err (coded bad_request unsupported_auth_transport)

abbrev pub hex_value : ℕ → ℕ
hex_value c = if leb c b'9' then c - b'0' else if leb c b'F' then c - b'A' + 10 else c - b'a' + 10

unfoldable pub hex_pairs : Text → Text
hex_pairs [] = []
hex_pairs (a ∷ []) = []
hex_pairs (a ∷ b ∷ s) = (hex_value a * 16 + hex_value b) ∷ hex_pairs s

-- decodeFixedHex
unfoldable pub decode_fixed_hex : Text → ℕ → Option Text
decode_fixed_hex value size =
    if length (trim_space value) == size * 2 && all_hex (trim_space value)
    then some (hex_pairs (trim_space value))
    else none

unfoldable pub all_zero : Text → Bool
all_zero [] = true
all_zero (c ∷ s) = c == 0 && all_zero s
