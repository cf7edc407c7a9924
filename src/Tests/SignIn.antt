-- ===== src/Tests/SignIn.antt =====
-- A sign-in with a key of ones and a signature of twos, under a cryptography that accepts it.
use nim_near.Prelude.{
  ◌≡◌, ◌≢◌, refl, true, none, some, [], ◌∷◌, arith, ok, codes, Text, replicate, text_eq, ◌>>=◌,
  find, take, any, trim_space, trim_left, update_where, to_lower,
}
use nim_near.Tests.Payments.{up}
use nim_near.SignIn.Tables.{Challenge, User, AuthDb}
use nim_near.SignIn.Consume.{
  new_user, get_challenge, consume_and_resolve_identity, consume_tx, display_name_for_wallet,
  sanitize_account_label, resolve_identity, find_user, sign_in_new,
}
use nim_near.Nimiq.Network.{
  same_environment, parse_network, compact_network_name, remove_separators,
}
use nim_near.Nimiq.Address.{format_groups, iban_mod97, iban_from}
use nim_near.Money.Decimal.{padded, digits, format_int}
use nim_near.UseCases.{all_hex}
use nim_near.Requests.UseCase.Creation.{trim_runes, trim_left_runes}
use nim_near.SignIn.Keys.{
  Crypto, address_from_public_key, signed_bytes, decode_fixed_hex, hex_pairs, all_zero,
  address_of_payload, nimiq_base32, bits, bits_of_byte, letters, nth,
}
use nim_near.SignIn.Verify.{
  NimiqAuthUseCase, VerifyRequest, auth_purpose, auth_audience, verify, after_checks, checked,
  check_signature, open_session,
}
use nim_near.SignIn.Once.{IsSigned, verify-IsSigned, verify-once}

abbrev a_crypto : Crypto
a_crypto = record {
  blake2b = λ _. replicate 32 7;
  sha256 = λ s. s;
  verify = λ key bytes signature. text_eq signature (replicate 64 34);
}

abbrev a_key : Text
a_key = replicate 32 17

abbrev auth_use_case : NimiqAuthUseCase
auth_use_case = record {
  network = codes "testnet";
  domain = codes "nimnear.example";
  challenge_ttl = 300;
  crypto = a_crypto;
  format_time = λ _. [];
  base64 = λ s. s;
  generate_token = λ _ _. some (codes "token");
}

abbrev wallet : Text
wallet = address_from_public_key a_crypto a_key

abbrev a_challenge : Challenge
a_challenge = record {
  id = 6;
  nonce = 1 ∷ [];
  purpose = auth_purpose;
  transport = codes "mini-app";
  environment = codes "testnet";
  network = codes "test-albatross";
  domain = codes "nimnear.example";
  audience = auth_audience;
  claimed_address = wallet;
  message = codes "sign in";
  issued_at = 100;
  expires_at = 400;
  consumed_at = none;
}

abbrev auth_db : AuthDb
auth_db = record { challenges = a_challenge ∷ []; identities = []; users = [] }

abbrev verify_input : VerifyRequest
verify_input = record {
  challenge_id = 6;
  message = codes "sign in";
  public_key = replicate 64 b'1';
  signature = replicate 128 b'2';
  account_label = codes "Ada";
}

abbrev ada : User
ada = new_user 3 (codes "Ada") 200

abbrev signed_in_db : AuthDb
signed_in_db = record {
  challenges = record a_challenge { consumed_at = some 200 } ∷ [];
  identities =
      record {
        user_id = 3;
        network = codes "test-albatross";
        address = wallet;
        public_key = a_key;
        last_verified_at = 200;
        revoked_at = none;
      }
      ∷ [];
  users = ada ∷ [];
}

sign_in :
    verify auth_use_case true up 3 200 verify_input auth_db
    ≡ (ok (ada, codes "token"), signed_in_db)
unfolding verify after_checks checked ◌>>=◌ get_challenge find check_signature text_eq
    same_environment parse_network compact_network_name remove_separators trim_space trim_left
    to_lower decode_fixed_hex all_hex hex_pairs all_zero address_from_public_key address_of_payload
    nimiq_base32 bits bits_of_byte letters nth take format_groups padded digits format_int
    iban_mod97 iban_from signed_bytes consume_and_resolve_identity consume_tx update_where
    display_name_for_wallet sanitize_account_label trim_runes trim_left_runes any resolve_identity
    find_user sign_in_new open_session
sign_in = refl

verify-IsSigned_example : IsSigned auth_use_case 200 verify_input auth_db
verify-IsSigned_example =
    verify-IsSigned auth_use_case true up 3 200 verify_input auth_db signed_in_db
      (ada, codes "token") sign_in

verify-once_example :
    verify auth_use_case true up 4 250 verify_input signed_in_db
    ≢ (ok (ada, codes "token"), signed_in_db)
verify-once_example =
    verify-once auth_use_case true true up up 3 4 200 250 verify_input verify_input auth_db
      signed_in_db signed_in_db (ada, codes "token") (ada, codes "token") sign_in (omega arith) refl
