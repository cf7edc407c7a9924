-- ===== src/Gateway/Routed.antt =====
-- What a request has passed that the pipeline routes to a backend.
use nim_near.Prelude.{
  ℕ, ◌≡◌, refl, subst, inl, inr, true, false, ◌||◌, Option, none, some, arith, ltb, ◌==◌, Bool,
  if◌then◌else◌, Option-cases, is_empty, coalesce,
}
use nim_near.Hub.Rooms.{Uuids}
use nim_near.Gateway.Pipeline.{
  Policies, EndpointPolicy, EndpointCall, Managed, Verdict, skipped, routed, permission_answer,
  check_permission, check_rate_limit, enforce_endpoint, enforce_found, enforce_app, enforce,
  lookup_path, should_skip_pipeline,
}

-- What a policy demands of a request that reaches the backend.
abbrev pub MeetsPolicy : Policies → EndpointCall → ℕ → ℕ → EndpointPolicy → Type 0
MeetsPolicy p r app endpoint q =
    (is_empty q.required_permission ≡ false
      → (user : ℕ) × (r.user_id ≡ some user)
        × (p.rbac user (coalesce r.organization_id 0) q.required_permission ≡ some true))
    × ((q.rate_limit == 0) ≡ false
        → (incr : ℕ → ℕ → Option ℕ) → p.incr ≡ some incr
        → (n : ℕ) × (incr app endpoint ≡ some n) × (ltb q.rate_limit n ≡ false))

permission-met :
    (p : Policies) (q : EndpointPolicy) (r : EndpointCall)
    → check_permission p (some q) r ≡ none
    → is_empty q.required_permission ≡ false
    → (user : ℕ) × (r.user_id ≡ some user)
      × (p.rbac user (coalesce r.organization_id 0) q.required_permission ≡ some true)
unfolding check_permission
permission-met p q r h e = elim (Option-cases r.user_id) [
  | inl f ↦ ground (arith, h, e, f)
  | inr (user, f) ↦ (
    user,
    f,
    granted (p.rbac user (coalesce r.organization_id 0) q.required_permission)
        (ground (arith, h, e, f)),
  )
]
  where
    granted : (o : Option Bool) → permission_answer o ≡ none → o ≡ some true
    granted none k = cc
    granted (some true) k = refl
    granted (some false) k = cc

rate-met :
    (p : Policies) (q : EndpointPolicy) (app endpoint : ℕ)
    → check_rate_limit p (some q) app endpoint ≡ none
    → (q.rate_limit == 0) ≡ false
    → (incr : ℕ → ℕ → Option ℕ) → p.incr ≡ some incr
    → (n : ℕ) × (incr app endpoint ≡ some n) × (ltb q.rate_limit n ≡ false)
unfolding check_rate_limit
rate-met p q app endpoint h e incr i = elim (Option-cases (incr app endpoint)) [
  | inl f ↦ ground (arith, h, e, i, f)
  | inr (n, f) ↦ (n, f, ground (arith, h, e, i, f))
]

-- The steps that a routed request has passed.
routed-steps :
    (p : Policies) (r : EndpointCall) (app endpoint : ℕ) (e : Managed)
    → enforce_endpoint p r app e ≡ routed endpoint
    → (e.active ≡ true)
      × (e.id ≡ endpoint)
      × (check_permission p (p.policy e.id) r ≡ none)
      × (check_rate_limit p (p.policy e.id) app e.id ≡ none)
unfolding enforce_endpoint
routed-steps p r app endpoint e h = elim (Option-cases (check_permission p (p.policy e.id) r)) [
  | inr (status, f) ↦ ground (arith, h, f)
  | inl f ↦ elim (Option-cases (check_rate_limit p (p.policy e.id) app e.id)) [
    | inr (status, g) ↦ ground (arith, h, f, g)
    | inl g ↦ ground (arith, h, f, g)
  ]
]

-- A request that reached the backend has an app and an endpoint.
not-skipped :
    (b : Bool) (v : Verdict) {n : ℕ} → (if b then skipped else v) ≡ routed n → v ≡ routed n
not-skipped true v h = cc
not-skipped false v h = h

app-found :
    (p : Policies) (r : EndpointCall) (o : Option ℕ) {n : ℕ}
    → enforce_app p r o ≡ routed n
    → (app : ℕ) × (o ≡ some app)
      × (enforce_found p r app (p.endpoint app (lookup_path r.path)) ≡ routed n)
unfolding enforce_app
app-found p r none h = cc
app-found p r (some app) h = (app, refl, h)

endpoint-found :
    (p : Policies) (r : EndpointCall) (app : ℕ) (o : Option Managed) {n : ℕ}
    → enforce_found p r app o ≡ routed n
    → (e : Managed) × (o ≡ some e) × (enforce_endpoint p r app e ≡ routed n)
endpoint-found p r app none h = cc
endpoint-found p r app (some e) h = (e, refl, h)

-- A request that the pipeline routes to a backend has a valid app and is for an active endpoint of
-- that app; where the endpoint has a policy, the user of the request holds the permission that is
-- demanded, and the count of Redis is within the limit.
pub enforce-routed :
    (uuids : Uuids) (p : Policies) (r : EndpointCall) {endpoint : ℕ}
    → enforce uuids p r ≡ routed endpoint
    → (app : ℕ) × (e : Managed) × (uuids.parse r.app_header ≡ some app)
      × (p.endpoint app (lookup_path r.path) ≡ some e)
      × (e.active ≡ true)
      × (e.id ≡ endpoint)
      × ((q : EndpointPolicy) → p.policy e.id ≡ some q → MeetsPolicy p r app e.id q)
unfolding enforce
enforce-routed uuids p r {endpoint} h =
    let a = app-found p r (uuids.parse r.app_header) (
      not-skipped (should_skip_pipeline r.path || is_empty r.app_header)
        (enforce_app p r (uuids.parse r.app_header)) h) in
    let e = endpoint-found p r a.0 (p.endpoint a.0 (lookup_path r.path)) a.2 in
    let s = routed-steps p r a.0 endpoint e.0 e.2 in
    (
      a.0,
      e.0,
      a.1,
      e.1,
      s.0,
      s.1,
      λ q k. (
        permission-met p q r (subst (λ o. check_permission p o r ≡ none) k s.2),
        rate-met p q a.0 e.0.id (subst (λ o. check_rate_limit p o a.0 e.0.id ≡ none) k s.3),
      ),
    )
