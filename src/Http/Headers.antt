-- ===== src/Http/Headers.antt =====
-- backend/internal/shared/middleware/auth.go, auth_ws.go and origin.go: what the middleware reads
-- of a request.
use nim_near.Prelude.{
  ℕ, Bool, true, false, not, ◌||◌, Option, none, some, List, [], ◌∷◌, ◌++◌, ◌==◌, if◌then◌else◌,
  Text, codes, text_eq, to_lower, to_upper, trim_space, is_empty, exists,
}
use nim_near.Hub.State.{contains_text}

-- The headers of an http.Request, an absent one is empty, and the value of the session cookie.
pub record HttpRequest : Type 0 where
  pub method : Text
  pub authorization : Text
  pub origin : Text
  pub referer : Text
  pub cookie : Option Text

-- strings.SplitN(s, " ", 2), of two parts.
abbrev more : ℕ → Option (Text × Text) → Option (Text × Text)
more c none = none
more c (some (a, b)) = some (c ∷ a, b)

unfoldable pub split_blank : Text → Option (Text × Text)
split_blank [] = none
split_blank (c ∷ s) = let rest = split_blank s in if c == b' ' then some ([], s) else more c rest

-- strings.EqualFold(s, "bearer")
abbrev pub is_bearer : Text → Bool
is_bearer s = text_eq (to_lower s) (codes "bearer")

-- The part after the scheme; `none` is another format.
unfoldable pub bearer_part : Text → Option Text
unfolding split_blank to_lower text_eq
bearer_part header = elim (split_blank header) [
  | none ↦ none
  | some (scheme, rest) ↦ if is_bearer scheme then some rest else none
]

-- ExtractBearerToken
unfoldable pub extract_bearer_token : Text → Text
unfolding bearer_part trim_space
extract_bearer_token header = elim (bearer_part header) [ none ↦ [] | some rest ↦ trim_space rest ]

-- hasExplicitBearer
unfoldable pub has_explicit_bearer : HttpRequest → Bool
unfolding bearer_part trim_space
has_explicit_bearer r = elim (bearer_part (trim_space r.authorization)) [
  | none ↦ false
  | some rest ↦ not (is_empty (trim_space rest))
]

-- hasSessionCookie
unfoldable pub has_session_cookie : HttpRequest → Bool
unfolding trim_space
has_session_cookie r = exists (λ v. not (is_empty (trim_space v))) r.cookie

-- isStateChangingMethod
unfoldable pub is_state_changing_method : Text → Bool
unfolding to_upper trim_space text_eq
is_state_changing_method method =
    let m = to_upper (trim_space method) in
    text_eq m (codes "POST")
    || (text_eq m (codes "PUT") || (text_eq m (codes "PATCH") || text_eq m (codes "DELETE")))

-- allowedOriginSet
unfoldable pub allowed_origin_set : List Text → List Text
unfolding trim_space text_eq
allowed_origin_set [] = []
allowed_origin_set (origin ∷ origins) =
    let trimmed = trim_space origin in
    let rest = allowed_origin_set origins in
    if is_empty trimmed || text_eq trimmed (codes "*") then rest else trimmed ∷ rest

-- url.Parse of a referer: its scheme and its host.
abbrev pub UrlParser : Type 0
UrlParser = Text → Option (Text × Text)

abbrev referer_origin : Option (Text × Text) → Text
referer_origin none = []
referer_origin (some (scheme, host)) =
    if is_empty scheme || is_empty host then [] else scheme ++ (codes "://" ++ host)

-- requestBrowserOrigin: `none` is neither header.
unfoldable pub request_browser_origin : UrlParser → HttpRequest → Option Text
unfolding trim_space
request_browser_origin parse r =
    if not (is_empty (trim_space r.origin))
    then some (trim_space r.origin)
    else if is_empty (trim_space r.referer)
    then none
    else some (referer_origin (parse (trim_space r.referer)))

-- browserOriginAllowed
unfoldable pub browser_origin_allowed : UrlParser → List Text → HttpRequest → Bool
unfolding request_browser_origin contains_text
browser_origin_allowed parse allowed r =
    exists (λ origin. contains_text origin allowed) (request_browser_origin parse r)

-- CookieMutationOrigin: whether the request reaches the next handler; if not, it is answered by
-- 403.
unfoldable pub cookie_mutation_passes : UrlParser → List Text → HttpRequest → Bool
unfolding is_state_changing_method has_explicit_bearer has_session_cookie browser_origin_allowed
    allowed_origin_set
cookie_mutation_passes parse origins r =
    if not (is_state_changing_method r.method)
    then true
    else if has_explicit_bearer r
    then true
    else if not (has_session_cookie r)
    then true
    else browser_origin_allowed parse (allowed_origin_set origins) r

-- The check of the WebSocket upgrader (infrastructure/websocket/upgrader.go, originChecker).
unfoldable pub trimmed_set : List Text → List Text
unfolding trim_space
trimmed_set [] = []
trimmed_set (origin ∷ origins) =
    let trimmed = trim_space origin in
    let rest = trimmed_set origins in if is_empty trimmed then rest else trimmed ∷ rest

unfoldable pub check_origin : List Text → Bool → Text → Bool
unfolding trimmed_set contains_text trim_space
check_origin allowed allow_empty header =
    if is_empty (trim_space header)
    then allow_empty
    else if contains_text (codes "*") (trimmed_set allowed)
    then true
    else elim (trimmed_set allowed) [
      | [] ↦ allow_empty
      | origin ∷ origins ↦ contains_text (trim_space header) (origin ∷ origins)
    ]
