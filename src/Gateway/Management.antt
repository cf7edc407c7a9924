-- ===== src/Gateway/Management.antt =====
-- application/apimanagement/usecase: define, activate and retire an endpoint, and set its policy. A
-- call is one step here: two calls that overlap are not modelled.
use nim_near.Prelude.{
  ℕ, ℤ, pos, Bool, true, false, Option, none, some, List, [], ◌∷◌, Text, codes, is_empty,
  if◌then◌else◌, positive_part, Result, ok, err, plain, already_exists, bad_request, require, not,
  ◌>>=◌, ◌>>◌,
}
use nim_near.Store.{Time}
use nim_near.Gateway.Endpoints.{
  EndpointStatus, status_eq, EndpointRow, PolicyRow, ManagementDb, Access, get_endpoint,
  get_by_method_path, create_endpoint, update_endpoint, get_by_endpoint_id, create_policy,
  update_policy_row,
}
use nim_near.Gateway.Pipeline.{Managed, EndpointPolicy, Policies}

-- The events on the bus: EndpointCreated, EndpointActivated and EndpointRetired.
pub data ManagementEvent : Type 0 where
  endpoint_created : ℕ → ℕ → Text → Text → Time → ManagementEvent
  endpoint_activated endpoint_retired : ℕ → ℕ → Time → ManagementEvent

-- What a call that succeeds answers, writes and publishes.
abbrev pub Managing : Type 0 → Type 0
Managing A = Result (A × ManagementDb × List ManagementEvent)

-- dto.DefineEndpointRequest
pub record DefineRequest : Type 0 where
  pub method : Text
  pub path : Text
  pub version : Text
  pub backend_service : Text
  pub backend_action : Text
  pub schema : Text
  pub audit_level : Text
  pub pii_masking : Bool
  pub event_after : Text

abbrev pub text_or : Text → Text → Text
text_or s d = if is_empty s then d else s

-- `existing, _ := …; existing != nil`: an error of the read is dropped.
abbrev pub succeeds {ℓ} : {A : Type ℓ} → Result A → Bool
succeeds (ok a) = true
succeeds (err e) = false

unfoldable pub endpoint_of_request : ℕ → DefineRequest → EndpointRow
endpoint_of_request app r = record {
  id = 0;
  app_id = app;
  method = r.method;
  path = r.path;
  version = text_or r.version (codes "v1");
  backend_service = r.backend_service;
  backend_action = r.backend_action;
  schema = r.schema;
  audit_level = text_or r.audit_level (codes "standard");
  pii_masking = r.pii_masking;
  event_after = r.event_after;
  status = EndpointStatus.active;
  created_at = 0;
  updated_at = 0;
}

-- DefineEndpointUseCase.Execute
unfoldable pub define_endpoint : Access → ℕ → DefineRequest → ManagementDb → Managing EndpointRow
define_endpoint a app r db = do
  let e = endpoint_of_request app r
  require (not (succeeds (get_by_method_path a app r.method r.path e.version db.endpoints)))
      (plain already_exists)
  (row, rows) ← create_endpoint a e db.endpoints
  ok (
    row,
    record db { endpoints = rows },
    endpoint_created row.id app row.method row.path a.now ∷ [],
  )

-- Execute of ActivateEndpointUseCase and of RetireEndpointUseCase, which differ in the status and
-- the event.
unfoldable pub set_status :
    Access
    → EndpointStatus
    → (ℕ → ℕ → Time → ManagementEvent)
    → ℕ
    → ManagementDb
    → Managing (Unit {0})
set_status a status event id db = do
  e ← get_endpoint a id db.endpoints
  require (not (status_eq e.status status)) (plain bad_request)
  rows ← update_endpoint a (record e { status = status }) db.endpoints
  ok (tt, record db { endpoints = rows }, event id e.app_id a.now ∷ [])

abbrev pub activate_endpoint : Access → ℕ → ManagementDb → Managing (Unit {0})
activate_endpoint a = set_status a EndpointStatus.active endpoint_activated

abbrev pub retire_endpoint : Access → ℕ → ManagementDb → Managing (Unit {0})
retire_endpoint a = set_status a EndpointStatus.retired endpoint_retired

-- dto.UpdatePolicyRequest
pub record PolicyRequest : Type 0 where
  pub required_permission : Text
  pub rate_limit : ℤ
  pub auth_policy : Text
  pub validation_policy : Text
  pub extra_policies : Text

abbrev pub with_request : PolicyRequest → PolicyRow → PolicyRow
with_request r q = record q {
  required_permission = r.required_permission;
  rate_limit = r.rate_limit;
  auth_policy = text_or r.auth_policy (codes "jwt");
  validation_policy = r.validation_policy;
  extra_policies = r.extra_policies;
}

abbrev pub new_policy : ℕ → PolicyRow
new_policy endpoint = record {
  id = 0;
  endpoint_id = endpoint;
  required_permission = [];
  rate_limit = pos 0;
  auth_policy = [];
  validation_policy = [];
  extra_policies = [];
  created_at = 0;
  updated_at = 0;
}

unfoldable pub save_policy :
    Access → ℕ → PolicyRequest → ManagementDb → Result PolicyRow → Managing PolicyRow
save_policy a endpoint r db (ok q) = do
  rows ← update_policy_row a (with_request r q) db.policies
  ok (with_request r q, record db { policies = rows }, [])
save_policy a endpoint r db (err e) = do
  (q, db') ← create_policy a (with_request r (new_policy endpoint)) db
  ok (q, db', [])

-- UpdatePolicyUseCase.Execute
unfoldable pub update_policy : Access → ℕ → PolicyRequest → ManagementDb → Managing PolicyRow
update_policy a endpoint r db =
    save_policy a endpoint r db (get_by_endpoint_id a endpoint db.policies)

pub data ManagementCall : Type 0 where
  define : Access → ℕ → DefineRequest → ManagementCall
  activate retire : Access → ℕ → ManagementCall
  set_policy : Access → ℕ → PolicyRequest → ManagementCall

-- A call that fails leaves the tables as they are.
abbrev pub written {ℓ} :
    {A : Type ℓ} → ManagementDb → Result (A × ManagementDb × List ManagementEvent) → ManagementDb
written db (ok (a, db', events)) = db'
written db (err e) = db

unfoldable pub step : ManagementCall → ManagementDb → ManagementDb
step (define a app r) db = written db (define_endpoint a app r db)
step (activate a id) db = written db (activate_endpoint a id db)
step (retire a id) db = written db (retire_endpoint a id db)
step (set_policy a id r) db = written db (update_policy a id r db)

unfoldable pub run_calls : List ManagementCall → ManagementDb → ManagementDb
run_calls [] db = db
run_calls (c ∷ cs) db = run_calls cs (step c db)

-- The pipeline over these tables: GetByMethodPath with version v1, and `policy, _ :=
-- GetByEndpointID`, each with its own access. An error of a read is read as no row.
abbrev pub managed_of : Result EndpointRow → Option Managed
managed_of (ok e) = some (record { id = e.id; active = status_eq e.status EndpointStatus.active })
managed_of (err f) = none

abbrev pub policy_of : Result PolicyRow → Option EndpointPolicy
policy_of (ok q) = some (record {
  required_permission = q.required_permission;
  rate_limit = positive_part q.rate_limit;
})
policy_of (err f) = none

unfoldable pub over_tables : Access → Access → Text → ManagementDb → Policies → Policies
over_tables a b method db p = record p {
  endpoint =
      λ app path. managed_of (get_by_method_path a app method path (codes "v1") db.endpoints);
  policy = λ id. policy_of (get_by_endpoint_id b id db.policies);
}
