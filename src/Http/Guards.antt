-- ===== src/Http/Guards.antt =====
-- backend/internal/shared/middleware: the guards in front of the handlers, as the status that they
-- answer, or none when the request goes on.
use nim_near.Prelude.{
  ℕ, Bool, true, false, not, ◌&&◌, Option, none, some, List, [], ◌∷◌, ltb, ◌==◌, if◌then◌else◌,
  Text, codes, text_eq, is_empty, length, any, coalesce, exists,
}
use nim_near.SignIn.Tables.{User, is_active}
use nim_near.Hub.Rooms.{Uuids}
use nim_near.Http.Headers.{HttpRequest, bearer_part}

-- service.Claims, less the permissions.
pub record Claims : Type 0 where
  pub user_id : ℕ
  pub organization_id : ℕ

-- AuthService.ValidateToken; `none` is its error.
abbrev pub Tokens : Type 0
Tokens = Text → Option Claims

-- A guard's answer: a status, or what it puts into the context.
pub data Guard (A : Type 0) : Type 0 where
  answers : ℕ → Guard A
  passes : A → Guard A

-- The token of JWTAuth: the header first, and the cookie when there is none.
abbrev pub token_of : HttpRequest → Option Text
token_of r =
    if is_empty r.authorization then some (coalesce r.cookie []) else bearer_part r.authorization

abbrev pub validated : Tokens → Text → Guard Claims
validated tokens token =
    if is_empty token
    then answers 401
    else elim (tokens token) [ none ↦ answers 401 | some c ↦ passes c ]

-- JWTAuth
unfoldable pub jwt_auth : Tokens → HttpRequest → Guard Claims
unfolding bearer_part
jwt_auth tokens r = elim (token_of r) [ none ↦ answers 401 | some token ↦ validated tokens token ]

-- users.GetByID: a repository that fails, that has no such user, or the user.
pub data Lookup : Type 0 where
  fails : Lookup
  missing : Lookup
  finds : User → Lookup

abbrev active : Lookup → Guard (Unit {0})
active fails = answers 401
active missing = answers 401
active (finds u) = if is_active u then passes tt else answers 401

-- RequireActiveAccount. The outer option is a middleware without a repository.
unfoldable pub require_active_account : Option (ℕ → Lookup) → Option ℕ → Guard (Unit {0})
require_active_account none user_id = passes tt
require_active_account (some users) none = answers 401
require_active_account (some users) (some id) = if id == 0 then answers 401 else active (users id)

-- RBACService.HasPermission: an error, or the answer.
abbrev pub Rbac : Type 0
Rbac = ℕ → ℕ → Text → Option Bool

abbrev pub permitted : Option Bool → Guard (Unit {0})
permitted none = answers 500
permitted (some has) = if has then passes tt else answers 403

-- RequirePermission. The organization of the context is the nil UUID when there is none.
unfoldable pub require_permission : Rbac → Text → Option ℕ → Option ℕ → Guard (Unit {0})
require_permission rbac permission none org = answers 401
require_permission rbac permission (some user) org =
    permitted (rbac user (coalesce org 0) permission)

-- strings.Split(host, ".")
abbrev more_host : ℕ → List Text → List Text
more_host c [] = (c ∷ []) ∷ []
more_host c (part ∷ parts) = (c ∷ part) ∷ parts

unfoldable pub split_dot : Text → List Text
split_dot [] = [] ∷ []
split_dot (c ∷ s) = let rest = split_dot s in if c == b'.' then [] ∷ rest else more_host c rest

-- The organization of a subdomain. `by_slug` is orgRepo.GetBySlug; `none` is a resolver without a
-- repository.
abbrev pub first_label : List Text → Text
first_label [] = []
first_label (part ∷ parts) = part

unfoldable pub subdomain_organization : Option (Text → Option ℕ) → Text → ℕ
unfolding split_dot
subdomain_organization none host = 0
subdomain_organization (some by_slug) host =
    if ltb 2 (length (split_dot host))
    then coalesce (by_slug (first_label (split_dot host))) 0
    else 0

-- The first id of the three that is not the nil UUID.
abbrev pub first_id : ℕ → ℕ → ℕ → ℕ
first_id header claim subdomain =
    if header == 0 then (if claim == 0 then subdomain else claim) else header

-- The organization of TenantResolverWithWorkspace; 0 leaves the context without one.
unfoldable pub resolve_tenant : Uuids → Option (Text → Option ℕ) → Text → Option ℕ → Text → Guard ℕ
unfolding subdomain_organization
resolve_tenant uuids by_slug header claim host =
    if is_empty header
    then passes (first_id 0 (coalesce claim 0) (subdomain_organization by_slug host))
    else elim (uuids.parse header) [
      | none ↦ answers 400
      | some id ↦ passes (first_id id (coalesce claim 0) (subdomain_organization by_slug host))
    ]

-- The workspace, for a context with an organization.
unfoldable pub resolve_workspace : Uuids → Option (Text → Option ℕ) → Text → Text → ℕ
resolve_workspace uuids none header slug = 0
resolve_workspace uuids (some by_slug) header slug =
    let id = if is_empty header then 0 else coalesce (uuids.parse header) 0 in
    if id == 0 then (if is_empty slug then 0 else coalesce (by_slug slug) 0) else id

-- RequireTenant
unfoldable pub require_tenant : Option ℕ → Guard (Unit {0})
require_tenant org = if exists (λ id. not (id == 0)) org then passes tt else answers 400

-- CORSOptions: the allowed origins, and whether credentials are allowed.
unfoldable pub cors_options : List Text → List Text × Bool
unfolding any text_eq
cors_options origins =
    (origins, not (is_none_of origins) && not (any (λ o. text_eq o (codes "*")) origins))
  where
    is_none_of : List Text → Bool
    is_none_of [] = true
    is_none_of (o ∷ os) = false
