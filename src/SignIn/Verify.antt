-- ===== src/SignIn/Verify.antt =====
-- nimiq_auth.go: CreateChallenge and Verify.
use nim_near.Prelude.{
  [], ℕ, ◌+◌, Bool, ◌&&◌, ◌||◌, Option, none, some, ◌∷◌, ◌++◌, ltb, ◌==◌, if◌then◌else◌, is_none,
  exists, Text, codes, text_eq, Result, ok, err, plain, coded, internal, bad_request, conflict,
  gone, unauthorized, forbidden, challenge_already_used, challenge_expired,
  challenge_message_mismatch, network_mismatch, environment_mismatch, invalid_public_key,
  invalid_signature_encoding, public_key_address_mismatch, invalid_nimiq_signature,
  account_unavailable, invalid_wallet_address, invalid_auth_purpose, unsupported_auth_transport,
  unsupported_nimiq_network, require, or_fail, ◌>>=◌, ◌>>◌,
}
use nim_near.Store.{Answers, Time, Duration}
use nim_near.Nimiq.Network.{
  Network, test_network, main_network, parse_network, same_environment, network_id,
}
use nim_near.Nimiq.Address.{normalize_user_friendly_address}
use nim_near.SignIn.Tables.{Challenge, User, AuthDb, is_active}
use nim_near.SignIn.Consume.{get_challenge, consume_and_resolve_identity}
use nim_near.SignIn.Consume as Repo
use nim_near.SignIn.Keys.{Crypto, address_from_public_key, signed_bytes, decode_fixed_hex, all_zero}

abbrev pub environment_of : Network → Text
environment_of test_network = codes "testnet"
environment_of main_network = codes "mainnet"

abbrev pub auth_name : Network → Text
auth_name test_network = codes "test-albatross"
auth_name main_network = codes "main-albatross"

abbrev pub auth_purpose : Text
auth_purpose = codes "AUTH_LOGIN"

abbrev pub auth_audience : Text
auth_audience = codes "nimnear-api"

-- The configuration, and what the use case calls in other packages: the cryptography, RFC 3339
-- times, base64, and the tokens, with `none` for an error.
pub record NimiqAuthUseCase : Type 0 where
  pub network : Text
  pub domain : Text
  pub challenge_ttl : Duration
  pub crypto : Crypto
  pub format_time : Time → Text
  pub base64 : Text → Text
  pub generate_token : ℕ → Text → Option Text

-- NimiqChallengeRequest
pub record ChallengeRequest : Type 0 where
  pub address : Text
  pub network : Text
  pub environment : Text
  pub purpose : Text
  pub transport : Text

-- The checks of CreateChallenge: the normal form of the address, and the network.
unfoldable pub check_request : NimiqAuthUseCase → ChallengeRequest → Result (Text × Network)
check_request uc r = do
  address ←
      or_fail (normalize_user_friendly_address r.address) (coded bad_request invalid_wallet_address)
  require (text_eq r.purpose auth_purpose) (coded bad_request invalid_auth_purpose)
  require (text_eq r.transport (codes "mini-app") || text_eq r.transport (codes "hub"))
      (coded bad_request unsupported_auth_transport)
  configured ← or_fail (parse_network uc.network) (coded internal unsupported_nimiq_network)
  require (exists (λ n. network_id n == network_id configured) (parse_network r.network))
      (coded bad_request unsupported_nimiq_network)
  require (text_eq r.environment (environment_of configured))
      (coded bad_request environment_mismatch)
  ok (address, configured)

abbrev pub line : Text → Text → Text
line name value = 10 ∷ name ++ value

unfoldable pub message_of : NimiqAuthUseCase → Network → Text → Text → Time → Time → Text
message_of uc n address nonce issued expires =
    codes "NIMNear Nimiq authentication"
    ++ line (codes "version: ") (codes "1")
    ++ line (codes "domain: ") uc.domain
    ++ line (codes "audience: ") auth_audience
    ++ line (codes "environment: ") (environment_of n)
    ++ line (codes "network: ") (auth_name n)
    ++ line (codes "address: ") address
    ++ line (codes "purpose: ") auth_purpose
    ++ line (codes "challenge: ") (uc.base64 nonce)
    ++ line (codes "issued_at: ") (uc.format_time issued)
    ++ line (codes "expires_at: ") (uc.format_time expires)

abbrev pub new_challenge :
    NimiqAuthUseCase → ℕ → Text → Time → ChallengeRequest → Text × Network → Challenge
new_challenge uc id nonce now r (address, n) = record {
  id = id;
  nonce = nonce;
  purpose = auth_purpose;
  transport = r.transport;
  environment = environment_of n;
  network = auth_name n;
  domain = uc.domain;
  audience = auth_audience;
  claimed_address = address;
  message = message_of uc n address nonce now (now + uc.challenge_ttl);
  issued_at = now;
  expires_at = now + uc.challenge_ttl;
  consumed_at = none;
}

-- CreateChallenge: `nonce` is what rand.Read gives, or `none` for its error.
unfoldable pub create_challenge :
    NimiqAuthUseCase
    → Bool
    → ℕ
    → Option Text
    → Time
    → ChallengeRequest
    → AuthDb
    → Result (Challenge × AuthDb)
create_challenge uc up id random now r db = do
  checked ← check_request uc r
  nonce ← or_fail random (plain internal)
  db' ← Repo.create_challenge up (new_challenge uc id nonce now r checked) db
  ok (new_challenge uc id nonce now r checked, db')

-- NimiqVerifyRequest
pub record VerifyRequest : Type 0 where
  pub challenge_id : ℕ
  pub message : Text
  pub public_key : Text
  pub signature : Text
  pub account_label : Text

-- `err != nil || allZero(publicKey)`
abbrev pub decode_key : Text → Option Text
decode_key value = elim (decode_fixed_hex value 32) [
  | none ↦ none
  | some k ↦ if all_zero k then none else some k
]

-- The checks of Verify before it consumes the challenge, in their order. The answer is the public
-- key.
unfoldable pub check_signature : NimiqAuthUseCase → Time → VerifyRequest → Challenge → Result Text
check_signature uc now r c = do
  require (is_none c.consumed_at) (coded conflict challenge_already_used)
  require (ltb now c.expires_at) (coded gone challenge_expired)
  require (text_eq c.message r.message) (coded bad_request challenge_message_mismatch)
  require (same_environment c.network uc.network) (coded bad_request network_mismatch)
  configured ← or_fail (parse_network uc.network) (coded bad_request environment_mismatch)
  require
      (text_eq c.environment (environment_of configured)
        && text_eq c.domain uc.domain
        && text_eq c.audience auth_audience
        && text_eq c.purpose auth_purpose)
      (coded bad_request environment_mismatch)
  key ← or_fail (decode_key r.public_key) (coded bad_request invalid_public_key)
  signature ←
      or_fail (decode_fixed_hex r.signature 64) (coded bad_request invalid_signature_encoding)
  require (text_eq (address_from_public_key uc.crypto key) c.claimed_address)
      (coded unauthorized public_key_address_mismatch)
  bytes ← signed_bytes uc.crypto c.transport c.message
  require (uc.crypto.verify key bytes signature) (coded unauthorized invalid_nimiq_signature)
  ok key

unfoldable pub checked :
    NimiqAuthUseCase → Bool → Time → VerifyRequest → AuthDb → Result (Challenge × Text)
checked uc up now r db = do
  c ← get_challenge up r.challenge_id db
  key ← check_signature uc now r c
  ok (c, key)

-- The session of the user.
unfoldable pub open_session :
    NimiqAuthUseCase → Result User × AuthDb → Result (User × Text) × AuthDb
open_session uc (err e, db) = (err e, db)
open_session uc (ok user, db) = (
  (do
    require (is_active user) (coded forbidden account_unavailable)
    token ← or_fail (uc.generate_token user.id user.email) (plain internal)
    ok (user, token)),
  db,
)

unfoldable pub after_checks :
    NimiqAuthUseCase
    → Answers
    → ℕ
    → Time
    → VerifyRequest
    → AuthDb
    → Result (Challenge × Text)
    → Result (User × Text) × AuthDb
after_checks uc up user_id now r db (err e) = (err e, db)
after_checks uc up user_id now r db (ok (c, key)) =
    open_session uc (consume_and_resolve_identity up user_id c.id key now r.account_label db)

-- Verify: `read` says whether GetChallenge is answered, and `up` the calls of the transaction.
unfoldable pub verify :
    NimiqAuthUseCase
    → Bool
    → Answers
    → ℕ
    → Time
    → VerifyRequest
    → AuthDb
    → Result (User × Text) × AuthDb
verify uc read up user_id now r db = after_checks uc up user_id now r db (checked uc read now r db)

-- ChallengeClaimedAddress: an empty text for an error.
unfoldable pub challenge_claimed_address : Bool → ℕ → AuthDb → Text
challenge_claimed_address read id db = elim (get_challenge read id db) [
  | err e ↦ []
  | ok c ↦ c.claimed_address
]
