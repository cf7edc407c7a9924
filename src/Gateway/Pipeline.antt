-- ===== src/Gateway/Pipeline.antt =====
-- pipeline.go: the policies that a managed endpoint is checked against, in their order.
use nim_near.Prelude.{
  ℕ, Bool, not, ◌||◌, Option, none, some, List, [], ◌∷◌, ltb, ◌==◌, if◌then◌else◌, Text, codes,
  is_empty, is_none, any, coalesce,
}
use nim_near.Hub.Rooms.{Uuids, strip_prefix}
use nim_near.Http.Guards.{Rbac}

-- model.Endpoint, its policy (a rate limit that is not positive is 0) and the parts of the request
-- that the pipeline reads.
pub record Managed : Type 0 where
  pub id : ℕ
  pub active : Bool

pub record EndpointPolicy : Type 0 where
  pub required_permission : Text
  pub rate_limit : ℕ

pub record EndpointCall : Type 0 where
  pub path : Text
  pub app_header : Text
  pub user_id : Option ℕ
  pub organization_id : Option ℕ

-- What happens to the request: the next handler takes it, it is answered by a status, or the
-- backend handles it.
pub data Verdict : Type 0 where
  skipped : Verdict
  answered : ℕ → Verdict
  routed : ℕ → Verdict

-- The repositories (`endpoint` for the method of the request), the interceptors (`true` is no
-- error) and Redis INCR (`none` is its error; the outer `none` is a pipeline without Redis).
pub record Policies : Type 0 where
  pub endpoint : ℕ → Text → Option Managed
  pub policy : ℕ → Option EndpointPolicy
  pub rbac : Rbac
  pub incr : Option (ℕ → ℕ → Option ℕ)
  pub intercepts : Managed → Bool

abbrev pub skip_prefixes : List Text
skip_prefixes =
    codes "/health" ∷ codes "/api/v1/auth" ∷ codes "/api/v1/admin" ∷ codes "/api/v1/ws" ∷ []

unfoldable pub should_skip_pipeline : Text → Bool
unfolding any strip_prefix
should_skip_pipeline path = any (λ p. not (is_none (strip_prefix p path))) skip_prefixes

abbrev or_slash : Text → Text
or_slash path = if is_empty path then codes "/" else path

-- The path by which the endpoint is looked up.
unfoldable pub lookup_path : Text → Text
unfolding strip_prefix
lookup_path path = elim (strip_prefix (codes "/api/v1") path) [
  | none ↦ path
  | some rest ↦ or_slash rest
]

-- Step 4: `none` is a pass.
abbrev pub permission_answer : Option Bool → Option ℕ
permission_answer none = some 500
permission_answer (some has) = if has then none else some 403

abbrev pub check_user : Policies → Text → Option ℕ → Option ℕ → Option ℕ
check_user p permission none org = some 401
check_user p permission (some user) org =
    permission_answer (p.rbac user (coalesce org 0) permission)

unfoldable pub check_permission : Policies → Option EndpointPolicy → EndpointCall → Option ℕ
check_permission p none r = none
check_permission p (some q) r =
    if is_empty q.required_permission
    then none
    else check_user p q.required_permission r.user_id r.organization_id

-- Step 5 and checkRateLimit.
abbrev pub over_limit : ℕ → Option ℕ → Option ℕ
over_limit limit none = some 429
over_limit limit (some count) = if ltb limit count then some 429 else none

abbrev pub counted : Option (ℕ → ℕ → Option ℕ) → ℕ → ℕ → ℕ → Option ℕ
counted none app endpoint limit = none
counted (some incr) app endpoint limit = over_limit limit (incr app endpoint)

unfoldable pub check_rate_limit : Policies → Option EndpointPolicy → ℕ → ℕ → Option ℕ
check_rate_limit p none app endpoint = none
check_rate_limit p (some q) app endpoint =
    if q.rate_limit == 0 then none else counted p.incr app endpoint q.rate_limit

abbrev or_verdict : Option ℕ → Verdict → Verdict
or_verdict (some status) rest = answered status
or_verdict none rest = rest

-- Steps 2 to 8 for the endpoint that was found. `routed` is the call of the backend registry.
unfoldable pub enforce_endpoint : Policies → EndpointCall → ℕ → Managed → Verdict
unfolding check_permission check_rate_limit
enforce_endpoint p r app e =
    if not e.active
    then answered 410
    else or_verdict (check_permission p (p.policy e.id) r) (
        or_verdict (check_rate_limit p (p.policy e.id) app e.id)
          (if p.intercepts e then routed e.id else answered 400))

abbrev pub enforce_found : Policies → EndpointCall → ℕ → Option Managed → Verdict
enforce_found p r app none = skipped
enforce_found p r app (some e) = enforce_endpoint p r app e

unfoldable pub enforce_app : Policies → EndpointCall → Option ℕ → Verdict
unfolding lookup_path enforce_endpoint
enforce_app p r none = answered 400
enforce_app p r (some app) = enforce_found p r app (p.endpoint app (lookup_path r.path))

-- Enforce
unfoldable pub enforce : Uuids → Policies → EndpointCall → Verdict
unfolding should_skip_pipeline enforce_app
enforce uuids p r =
    if should_skip_pipeline r.path || is_empty r.app_header
    then skipped
    else enforce_app p r (uuids.parse r.app_header)
