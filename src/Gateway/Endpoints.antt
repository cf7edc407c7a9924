-- ===== src/Gateway/Endpoints.antt =====
-- infrastructure/postgres/apimanagement and application/apimanagement/usecase: the managed
-- endpoints and their policies. A read or a write of the database may fail.
use nim_near.Prelude.{
  ℕ, ℤ, Bool, true, false, not, ◌&&◌, ◌||◌, List, ◌∷◌, Text, text_eq, if◌then◌else◌, ◌==◌, any,
  find, update_where, select, Result, ok, plain, not_found, internal, require, or_fail, ◌>>◌,
}
use nim_near.Store.{Time}

pub data EndpointStatus : Type 0 where
  active inactive deprecated retired : EndpointStatus

abbrev pub status_eq : EndpointStatus → EndpointStatus → Bool
status_eq active active = true
status_eq inactive inactive = true
status_eq deprecated deprecated = true
status_eq retired retired = true
status_eq s t = false

-- model.Endpoint, a row of app_endpoints.
pub record EndpointRow : Type 0 where
  pub id : ℕ
  pub app_id : ℕ
  pub method : Text
  pub path : Text
  pub version : Text
  pub backend_service : Text
  pub backend_action : Text
  pub schema : Text
  pub audit_level : Text
  pub pii_masking : Bool
  pub event_after : Text
  pub status : EndpointStatus
  pub created_at : Time
  pub updated_at : Time

-- model.EndpointPolicy, a row of app_endpoint_policies.
pub record PolicyRow : Type 0 where
  pub id : ℕ
  pub endpoint_id : ℕ
  pub required_permission : Text
  pub rate_limit : ℤ
  pub auth_policy : Text
  pub validation_policy : Text
  pub extra_policies : Text
  pub created_at : Time
  pub updated_at : Time

pub record ManagementDb : Type 0 where
  pub endpoints : List EndpointRow
  pub policies : List PolicyRow

-- Whether the reads and the writes of a call reach the database; the clock, and the id that
-- uuid.New gives.
pub record Access : Type 0 where
  pub reads : Bool
  pub writes : Bool
  pub now : Time
  pub fresh : ℕ

-- EndpointRepo

unfoldable pub get_endpoint : Access → ℕ → List EndpointRow → Result EndpointRow
get_endpoint a id rows = do
  require a.reads (plain internal)
  or_fail (find (λ e. e.id == id) rows) (plain not_found)

abbrev pub has_route : ℕ → Text → Text → Text → EndpointRow → Bool
has_route app method path version e =
    e.app_id == app && text_eq e.method method && text_eq e.path path && text_eq e.version version

unfoldable pub get_by_method_path :
    Access → ℕ → Text → Text → Text → List EndpointRow → Result EndpointRow
get_by_method_path a app method path version rows = do
  require a.reads (plain internal)
  or_fail (find (has_route app method path version) rows) (plain not_found)

-- PRIMARY KEY (id) and UNIQUE (app_id, method, path, version).
abbrev pub conflicts : EndpointRow → EndpointRow → Bool
conflicts e other = other.id == e.id || has_route e.app_id e.method e.path e.version other

unfoldable pub stamped : Access → EndpointRow → EndpointRow
stamped a e = record e {
  id = if e.id == 0 then a.fresh else e.id;
  created_at = a.now;
  updated_at = a.now;
}

unfoldable pub create_endpoint :
    Access → EndpointRow → List EndpointRow → Result (EndpointRow × List EndpointRow)
create_endpoint a e rows = do
  require (a.writes && not (any (conflicts (stamped a e)) rows)) (plain internal)
  ok (stamped a e, stamped a e ∷ rows)

-- The columns that Update writes.
abbrev pub overwritten : EndpointRow → Time → EndpointRow → EndpointRow
overwritten e now row = record e {
  id = row.id;
  app_id = row.app_id;
  created_at = row.created_at;
  updated_at = now;
}

-- The use cases change only the status of a row, so no unique index is in the way.
unfoldable pub update_endpoint : Access → EndpointRow → List EndpointRow → Result (List EndpointRow)
update_endpoint a e rows = do
  require a.writes (plain internal)
  ok (update_where (λ row. row.id == e.id) (overwritten e a.now) rows)

unfoldable pub delete_endpoint : Access → ℕ → ManagementDb → Result ManagementDb
delete_endpoint a id db = do
  require a.writes (plain internal)
  ok (record {
    endpoints = select (λ e. not (e.id == id)) db.endpoints;
    policies = select (λ q. not (q.endpoint_id == id)) db.policies;
  })

-- PolicyRepo

unfoldable pub get_by_endpoint_id : Access → ℕ → List PolicyRow → Result PolicyRow
get_by_endpoint_id a id rows = do
  require a.reads (plain internal)
  or_fail (find (λ q. q.endpoint_id == id) rows) (plain not_found)

abbrev pub stamped_policy : Access → PolicyRow → PolicyRow
stamped_policy a q = record q {
  id = if q.id == 0 then a.fresh else q.id;
  created_at = a.now;
  updated_at = a.now;
}

-- The primary key, and the foreign key on app_endpoints.
unfoldable pub create_policy : Access → PolicyRow → ManagementDb → Result (PolicyRow × ManagementDb)
create_policy a q db = do
  require
      (a.writes
        && not (any (λ other. other.id == (stamped_policy a q).id) db.policies)
        && any (λ e. e.id == q.endpoint_id) db.endpoints)
      (plain internal)
  ok (stamped_policy a q, record db { policies = stamped_policy a q ∷ db.policies })

abbrev pub overwritten_policy : PolicyRow → Time → PolicyRow → PolicyRow
overwritten_policy q now row = record q {
  id = row.id;
  endpoint_id = row.endpoint_id;
  created_at = row.created_at;
  updated_at = now;
}

unfoldable pub update_policy_row : Access → PolicyRow → List PolicyRow → Result (List PolicyRow)
update_policy_row a q rows = do
  require a.writes (plain internal)
  ok (update_where (λ row. row.id == q.id) (overwritten_policy q a.now) rows)

unfoldable pub delete_policy : Access → ℕ → List PolicyRow → Result (List PolicyRow)
delete_policy a id rows = do
  require a.writes (plain internal)
  ok (select (λ q. not (q.id == id)) rows)
