-- ===== src/Nimiq/Health.antt =====
-- backend/internal/infrastructure/nimiq/rpc/health.go: the readiness probe of the node. The lock of
-- Health is not held while it probes; a check here is one that no other interleaves with.
use nim_near.Prelude.{◌+◌, ◌*◌, Bool, Option, none, some, if◌then◌else◌, ltb, exists}
use nim_near.Store.{Time, Duration, second}
use nim_near.Nimiq.Client.{RpcError, unavailable, Answered, got, lost, Http, Client}
use nim_near.Nimiq.Calls.{get_batch_number}

-- `checked_at` is `none` for the zero time, and `failure` is `none` for a nil error.
pub record Health : Type 0 where
  pub client : Client
  pub ttl : Duration
  pub checked_at : Option Time
  pub failure : Option RpcError

-- NewHealth, with defaultHealthCacheTTL.
unfoldable pub new_health : Option Client → Option Health
new_health none = none
new_health (some c) =
    some (record { client = c; ttl = 20 * second; checked_at = none; failure = none })

-- `!h.checkedAt.IsZero() && now.Sub(h.checkedAt) < h.ttl`
unfoldable pub is_fresh : Health → Time → Bool
is_fresh h now = exists (λ (t : Time). ltb now (t + h.ttl)) h.checked_at

abbrev pub error_of : {A : Type 0} → Answered A → Option RpcError
error_of (got a) = none
error_of (lost e) = some e

-- Check at `now`, with the answer of the node to its probe noted at `later`.
unfoldable pub check_health : Http → Health → Time → Time → Health × Option RpcError
check_health http h now later = if is_fresh h now then (h, h.failure) else (
  record h { checked_at = some later; failure = error_of (get_batch_number http (some h.client)) },
  error_of (get_batch_number http (some h.client)),
)

-- Check of a nil Health.
unfoldable pub check : Http → Option Health → Time → Time → Option Health × Option RpcError
check http none now later = (none, some unavailable)
check http (some h) now later = let (h', e) = check_health http h now later in (some h', e)
