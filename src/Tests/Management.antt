-- ===== src/Tests/Management.antt =====
-- Runs of the management of endpoints and of the PII mask, and the theorems at concrete inputs.
use nim_near.Prelude.{
  ℕ, ◌≡◌, ◌≢◌, refl, pos, true, false, some, ◌==◌, [], ◌∷◌, codes, text_eq, to_lower, any, find,
  update_where, ok, ◌>>=◌,
}
use nim_near.Money.Decimal.{value}
use nim_near.Hub.Rooms.{strip_prefix, split_first}
use nim_near.Gateway.Pipeline.{
  EndpointCall, answered, routed, enforce, enforce_app, enforce_endpoint, lookup_path,
  should_skip_pipeline, check_permission, check_rate_limit,
}
use nim_near.Gateway.Endpoints.{
  ManagementDb, Access, EndpointRow, EndpointStatus, PolicyRow, has_route, get_endpoint,
  get_by_method_path, stamped, create_endpoint, update_endpoint, get_by_endpoint_id, create_policy,
}
use nim_near.Gateway.Management.{
  DefineRequest, PolicyRequest, define_endpoint, endpoint_of_request, set_status, update_policy,
  save_policy, define, retire, activate, set_policy, step, run_calls, over_tables, retire_endpoint,
  endpoint_retired, written,
}
use nim_near.Gateway.Governed.{MeetsRow, enforce-MeetsRow}
use nim_near.Gateway.Retired.{retire_endpoint-routed}
use nim_near.Gateway.Masking.{
  Fields, Masker, scalar, array, object, nil, cons, end, field, new_masker, mask_map, value_of,
  item_at, follow,
}
use nim_near.Gateway.Masked.{mask_map-private}
use nim_near.Tests.Gateway.{uuids, policies, call}

abbrev at_time : ℕ → Access
at_time now = record { reads = true; writes = true; now = now; fresh = now }

abbrev orders_endpoint : DefineRequest
orders_endpoint = record {
  method = codes "GET";
  path = codes "/orders";
  version = [];
  backend_service = codes "order-service";
  backend_action = codes "list";
  schema = [];
  audit_level = [];
  pii_masking = true;
  event_after = [];
}

abbrev members_only : PolicyRequest
members_only = record {
  required_permission = codes "orders:read";
  rate_limit = pos 10;
  auth_policy = [];
  validation_policy = [];
  extra_policies = [];
}

abbrev empty_db : ManagementDb
empty_db = record { endpoints = []; policies = [] }

-- Endpoint 6 of app 2, with a policy.
abbrev managed : ManagementDb
managed = record {
  endpoints =
      record (endpoint_of_request 2 orders_endpoint) { id = 6; created_at = 6; updated_at = 6 }
      ∷ [];
  policies = [];
}

defined : run_calls (define (at_time 6) 2 orders_endpoint ∷ []) empty_db ≡ managed
unfolding run_calls step define_endpoint endpoint_of_request get_by_method_path create_endpoint
    stamped find any ◌>>=◌
defined = refl

-- A second definition of the same route is refused, and a policy is set once and then changed.
run_management :
    (run_calls (define (at_time 7) 2 orders_endpoint ∷ []) managed ≡ managed)
    × (run_calls (retire (at_time 7) 6 ∷ retire (at_time 8) 6 ∷ activate (at_time 9) 6 ∷ []) managed
        ≡ record managed {
          endpoints =
              record (endpoint_of_request 2 orders_endpoint) {
                id = 6;
                created_at = 6;
                updated_at = 9;
              }
              ∷ [];
        })
unfolding run_calls step define_endpoint endpoint_of_request get_by_method_path create_endpoint
    stamped find any ◌>>=◌ set_status get_endpoint update_endpoint update_where text_eq
run_management = (refl, refl)

-- The caller of a request that lacks the permission.
abbrev outsider : EndpointCall
outsider = record call { user_id = some 8 }

abbrev protected_db : ManagementDb
protected_db = run_calls (set_policy (at_time 7) 6 members_only ∷ []) managed

member_routed :
    enforce uuids (over_tables (at_time 8) (at_time 8) (codes "GET") protected_db policies) call
    ≡ routed 6
unfolding enforce enforce_app enforce_endpoint should_skip_pipeline any strip_prefix lookup_path
    check_permission check_rate_limit value over_tables run_calls step update_policy save_policy
    get_by_endpoint_id create_policy get_by_method_path find ◌>>=◌ text_eq endpoint_of_request
member_routed = refl

enforce-MeetsRow_example :
    (app : ℕ) × (row : EndpointRow) × (some (value (codes "2") 0) ≡ some app)
    × (find
          (has_route app (codes "GET") (lookup_path call.path) (codes "v1"))
          protected_db.endpoints
        ≡ some row)
    × (row.status ≡ EndpointStatus.active)
    × (row.id ≡ 6)
    × MeetsRow policies call app 6
        (find (λ (q : PolicyRow). q.endpoint_id == 6) protected_db.policies)
enforce-MeetsRow_example =
    enforce-MeetsRow uuids (at_time 8) (at_time 8) (codes "GET") protected_db policies call refl
      member_routed

-- A read of the policy that fails is taken for "no policy": the outsider is routed.
policy_read_fails :
    (enforce uuids
        (over_tables (at_time 8) (at_time 8) (codes "GET") protected_db policies)
        outsider
      ≡ answered 403)
    × (enforce uuids
          (over_tables
            (at_time 8)
            (record (at_time 8) { reads = false })
            (codes "GET")
            protected_db
            policies)
          outsider
        ≡ routed 6)
unfolding enforce enforce_app enforce_endpoint should_skip_pipeline any strip_prefix lookup_path
    check_permission check_rate_limit value over_tables run_calls step update_policy save_policy
    get_by_endpoint_id create_policy get_by_method_path find ◌>>=◌ text_eq endpoint_of_request
policy_read_fails = (refl, refl)

retires :
    retire_endpoint (at_time 7) 6 managed
    ≡ ok (tt, written managed (retire_endpoint (at_time 7) 6 managed), endpoint_retired 6 2 7 ∷ [])
unfolding set_status get_endpoint update_endpoint update_where find ◌>>=◌ endpoint_of_request
retires = refl

retire_endpoint-routed_example :
    enforce uuids
      (over_tables
        (at_time 8)
        (at_time 8)
        (codes "GET")
        (run_calls
          (define (at_time 8) 2 orders_endpoint ∷ [])
          (written managed (retire_endpoint (at_time 7) 6 managed)))
        policies)
      call
    ≢ routed 6
retire_endpoint-routed_example =
    retire_endpoint-routed (at_time 7) 6 managed
      (written managed (retire_endpoint (at_time 7) 6 managed)) (endpoint_retired 6 2 7 ∷ [])
      (define (at_time 8) 2 orders_endpoint ∷ []) uuids (at_time 8) (at_time 8) (codes "GET")
      policies call retires (tt, tt)

gone :
    enforce uuids
      (over_tables
        (at_time 8)
        (at_time 8)
        (codes "GET")
        (run_calls (retire (at_time 7) 6 ∷ []) managed)
        policies)
      call
    ≡ answered 410
unfolding enforce enforce_app enforce_endpoint should_skip_pipeline any strip_prefix lookup_path
    value over_tables run_calls step get_by_method_path find ◌>>=◌ text_eq endpoint_of_request
    set_status get_endpoint update_endpoint update_where
gone = refl

abbrev masker : Masker
masker = new_masker (codes "email" ∷ []) []

-- {"users": [{"Email": "a@b"}], "rows": [[{"email": "c@d"}]]}
abbrev people : Fields
people =
    field (codes "users")
      (array (cons (object (field (codes "Email") (scalar (codes "a@b")) end)) nil))
      (field (codes "rows")
        (array
          (cons (array (cons (object (field (codes "email") (scalar (codes "c@d")) end)) nil)) nil))
        end)

-- The mask does not go into an array in an array.
nested_array :
    mask_map masker people
    ≡ field
        (codes "users")
        (array (cons (object (field (codes "Email") (scalar (codes "***")) end)) nil))
        (field
          (codes "rows")
          (array (
            cons
              (array (cons (object (field (codes "email") (scalar (codes "c@d")) end)) nil))
              nil))
          end)
unfolding mask_map new_masker any to_lower split_first strip_prefix
nested_array = refl

mask_map-private_example : scalar (codes "***") ≡ scalar masker.mask_value
unfolding follow value_of item_at mask_map new_masker any to_lower split_first strip_prefix text_eq
mask_map-private_example =
    mask_map-private masker ((codes "users", some 0) ∷ []) people
      (field (codes "Email") (scalar (codes "***")) end) (codes "Email") (scalar (codes "***")) refl
      refl refl
