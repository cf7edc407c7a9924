-- ===== src/Prelude/Results.antt =====
-- internal/shared/errors: the error kinds, and results as values.
use mathlib.Core.Path.{◌≡◌, refl}
use mathlib.Core.Bool.{Bool, true, false}
use mathlib.Core.Option.{Option, none, some}

-- The sentinel errors.
pub data Kind : Type 0 where
  not_found already_exists unauthorized forbidden bad_request internal : Kind
  rate_limited gone conflict validation : Kind
  event_past paid_event sold_out not_implemented : Kind

-- The machine-readable codes that clients branch on. `no_code` is an error made by errors.New.
pub data Code : Type 0 where
  no_code transaction_hash_used transaction_not_reserved : Code
  payment_not_configured no_verified_nimiq_identity invalid_transaction_hash : Code
  invalid_amount amount_too_large note_too_long invalid_note : Code
  invalid_wallet_address wallet_identity_forbidden : Code
  payment_request_not_cancellable payment_request_already_paid payment_request_cancelled : Code
  payment_request_expired payment_request_not_submittable payment_request_not_recoverable : Code
  payment_request_state_changed payment_request_state_terminal : Code
  past_event paid_purchase_required event_cancelled purchase_not_submittable : Code
  purchase_not_pending purchase_not_recoverable purchase_state_changed : Code
  purchase_state_conflict purchase_state_terminal : Code
  authentication_rate_limited challenge_not_found challenge_already_used challenge_expired : Code
  challenge_already_used_or_expired challenge_message_mismatch network_mismatch : Code
  environment_mismatch invalid_public_key invalid_signature_encoding : Code
  public_key_address_mismatch unsupported_auth_transport invalid_nimiq_signature : Code
  account_unavailable nimiq_identity_key_mismatch invalid_auth_purpose : Code
  unsupported_nimiq_network : Code
  nimiq_rpc_unavailable nimiq_rpc_timeout nimiq_rpc_authentication_failed nimiq_rpc_error : Code

pub record Error : Type 0 where
  pub kind : Kind
  pub code : Code

-- errors.NewWithCode and errors.New; the message is not modelled.
abbrev pub coded : Kind → Code → Error
coded k c = record { kind = k; code = c }

abbrev pub plain : Kind → Error
plain k = coded k no_code

pub data Result {ℓ} (A : Type ℓ) : Type ℓ where
  err : Error → Result A
  ok : A → Result A

-- `if !b { return nil, e }`
abbrev pub require : Bool → Error → Result (Unit {0})
require false failure = err failure
require true failure = ok tt

abbrev pub or_fail {ℓ} : {A : Type ℓ} → Option A → Error → Result A
or_fail none e = err e
or_fail (some a) e = ok a

-- `if err != nil { return nil, err }`, and the next step of the code otherwise.
infixl 5 ◌>>=◌ ◌>>◌
unfoldable pub ◌>>=◌ {ℓ κ} : {A : Type ℓ} {B : Type κ} → Result A → (A → Result B) → Result B
err failure >>= next = err failure
ok value >>= next = next value

abbrev pub ◌>>◌ {ℓ} : {B : Type ℓ} → Result (Unit {0}) → Result B → Result B
check >> rest = check >>= (λ _. rest)

-- What a step that succeeded says.
pub require-eq-ok : (b : Bool) (e : Error) {u : Unit {0}} → require b e ≡ ok u → b ≡ true
require-eq-ok true e h = refl
require-eq-ok false e h = cc

pub or_fail-eq-ok {ℓ} :
    {A : Type ℓ} (o : Option A) (e : Error) {a : A} → or_fail o e ≡ ok a → o ≡ some a
or_fail-eq-ok none e h = cc
or_fail-eq-ok (some a) e h = cc

-- A chain that succeeds has succeeded at its first step, and then at the rest.
pub bind-eq-ok {ℓ κ} :
    {A : Type ℓ} {B : Type κ} (m : Result A) (f : A → Result B) {b : B}
    → m >>= f ≡ ok b
    → (a : A) × (m ≡ ok a) × (f a ≡ ok b)
unfolding ◌>>=◌
bind-eq-ok (ok a) f h = (a, refl, h)
bind-eq-ok (err e) f h = cc
