-- ===== src/Gateway/Governed.antt =====
-- The pipeline over the tables of endpoints and policies: what a routed request has met of the rows.
use nim_near.Prelude.{
  ℕ, ◌≡◌, refl, sym, subst, ◌∙◌, inl, inr, true, Option, none, some, arith, ◌==◌, Option-cases,
  Text, codes, find, positive_part, ◌>>=◌,
}
use nim_near.Hub.Rooms.{Uuids}
use nim_near.Gateway.Pipeline.{
  Policies, EndpointPolicy, EndpointCall, Managed, routed, enforce, lookup_path,
}
use nim_near.Gateway.Endpoints.{
  EndpointStatus, status_eq, EndpointRow, PolicyRow, ManagementDb, Access, has_route,
  get_by_method_path, get_by_endpoint_id,
}
use nim_near.Gateway.Management.{over_tables, managed_of, policy_of}
use nim_near.Gateway.Routed.{MeetsPolicy, enforce-routed}

-- What a row of the policies demands, if there is one.
abbrev pub MeetsRow : Policies → EndpointCall → ℕ → ℕ → Option PolicyRow → Type 0
MeetsRow p r app endpoint none = Unit
MeetsRow p r app endpoint (some q) = MeetsPolicy p r app endpoint (record {
  required_permission = q.required_permission;
  rate_limit = positive_part q.rate_limit;
})

active-status :
    (s : EndpointStatus) → status_eq s EndpointStatus.active ≡ true → s ≡ EndpointStatus.active
active-status s h = ground (arith, h)

-- An endpoint that the pipeline gets is the row of the route.
found-row :
    (a : Access) (app : ℕ) (method path : Text) (db : ManagementDb) {e : Managed}
    → managed_of (get_by_method_path a app method path (codes "v1") db.endpoints) ≡ some e
    → (row : EndpointRow) × (find (has_route app method path (codes "v1")) db.endpoints ≡ some row)
      × (e.active ≡ status_eq row.status EndpointStatus.active)
      × (e.id ≡ row.id)
unfolding get_by_method_path ◌>>=◌
found-row a app method path db {e} h =
    elim (Option-cases (find (has_route app method path (codes "v1")) db.endpoints)) [
      | inl f ↦ ground (arith, f, h)
      | inr (row, f) ↦ (row, f, ground (arith, f, h), ground (arith, f, h))
    ]

read-policy :
    (b : Access) (endpoint : ℕ) (db : ManagementDb) {q : PolicyRow}
    → b.reads ≡ true
    → find (λ (q : PolicyRow). q.endpoint_id == endpoint) db.policies ≡ some q
    → policy_of (get_by_endpoint_id b endpoint db.policies)
      ≡ some (record {
        required_permission = q.required_permission;
        rate_limit = positive_part q.rate_limit;
      })
unfolding get_by_endpoint_id ◌>>=◌
read-policy b endpoint db up f = rw (up, f) refl

-- Over the tables of endpoints and policies, when the read of the policies is answered: a request
-- that the pipeline routes has a valid app, and the endpoint is the row of the app's route with the
-- method of the request, the path and version v1, and active. If the policies have a row for this
-- endpoint, the user of the request holds the permission that it demands, if it demands one, and
-- the count of Redis is within its limit, if it has one and Redis is configured.
pub enforce-MeetsRow :
    (uuids : Uuids) (a b : Access) (method : Text) (db : ManagementDb) (p : Policies)
    (r : EndpointCall) {endpoint : ℕ}
    → b.reads ≡ true
    → enforce uuids (over_tables a b method db p) r ≡ routed endpoint
    → (app : ℕ) × (row : EndpointRow) × (uuids.parse r.app_header ≡ some app)
      × (find (has_route app method (lookup_path r.path) (codes "v1")) db.endpoints ≡ some row)
      × (row.status ≡ EndpointStatus.active)
      × (row.id ≡ endpoint)
      × MeetsRow p r app endpoint (find (λ (q : PolicyRow). q.endpoint_id == endpoint) db.policies)
unfolding over_tables
enforce-MeetsRow uuids a b method db p r {endpoint} up h =
    let (app, e, parsed, found, active, same, meets) =
      enforce-routed uuids (over_tables a b method db p) r h in
    let row = found-row a app method (lookup_path r.path) db {e = e} found in
    (
      app,
      row.0,
      parsed,
      row.1,
      active-status row.0.status (sym row.2 ∙ active),
      sym row.3 ∙ same,
      met app e same meets (find (λ (q : PolicyRow). q.endpoint_id == endpoint) db.policies) refl,
    )
  where
    met :
        (app : ℕ) (e : Managed)
        → e.id ≡ endpoint
        → ((q : EndpointPolicy)
            → (over_tables a b method db p).policy e.id ≡ some q
            → MeetsPolicy p r app e.id q)
        → (o : Option PolicyRow)
        → find (λ (q : PolicyRow). q.endpoint_id == endpoint) db.policies ≡ o
        → MeetsRow p r app endpoint o
    met app e same meets none f = tt
    met app e same meets (some q) f =
        subst
          (λ i.
            (s : EndpointPolicy)
            → policy_of (get_by_endpoint_id b i db.policies) ≡ some s
            → MeetsPolicy p r app i s)
          same meets _ (read-policy b endpoint db {q = q} up f)
