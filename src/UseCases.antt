-- ===== src/UseCases.antt =====
-- What the use cases of payment requests (request.go) and of event purchases (purchase.go) share:
-- the reconciliation policy, the shape of a transaction hash, and the verified identity.
use nim_near.Prelude.{
  ℕ, ℤ, pos, negsuc, Bool, true, not, ◌&&◌, ◌||◌, Option, none, some, List, [], ◌∷◌, Text, leb,
  ◌==◌, if◌then◌else◌, length, trim_space, to_lower, Result, err, plain, coded, internal, not_found,
  no_verified_nimiq_identity, require, or_fail, ◌>>=◌,
}
use nim_near.Store.{Duration, minute, hour}

-- `if x <= 0 { x = d }`, for a signed x.
abbrev pub positive_or : ℤ → ℕ → ℕ
positive_or (pos n) d = if n == 0 then d else n
positive_or (negsuc n) d = d

pub record RawPolicy : Type 0 where
  pub interval : ℤ
  pub deadline : ℤ
  pub batch_size : ℤ

pub record Policy : Type 0 where
  pub interval : Duration
  pub deadline : Duration
  pub batch_size : ℕ

unfoldable pub normalize_policy : RawPolicy → Policy
normalize_policy p = record {
  interval = positive_or p.interval minute;
  deadline = positive_or p.deadline hour;
  batch_size = positive_or p.batch_size 50;
}

abbrev pub is_hex : ℕ → Bool
is_hex c = (leb b'0' c && leb c b'9') || (leb b'a' c && leb c b'f') || (leb b'A' c && leb c b'F')

unfoldable pub all_hex : Text → Bool
all_hex [] = true
all_hex (c ∷ s) = is_hex c && all_hex s

-- ^[0-9a-fA-F]{64}$
unfoldable pub is_transaction_hash : Text → Bool
unfolding all_hex
is_transaction_hash s = length s == 64 && all_hex s

abbrev pub normalize_hash : Text → Text
normalize_hash s = to_lower (trim_space s)

-- verifiedAddresses, and the test for none.
unfoldable pub require_identity : Option (ℕ → Option (List Text)) → ℕ → Result (Unit {0})
require_identity none user = err (coded not_found no_verified_nimiq_identity)
require_identity (some resolver) user = do
  addresses ← or_fail (resolver user) (plain internal)
  require (not (length addresses == 0)) (coded not_found no_verified_nimiq_identity)
