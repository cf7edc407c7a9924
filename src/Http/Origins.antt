-- ===== src/Http/Origins.antt =====
-- CookieMutationOrigin (backend/internal/shared/middleware/origin.go) and what it lets through, in
-- terms of the headers.
use nim_near.Prelude.{
  ◌≡◌, ◌≢◌, ◌⊎◌, inl, inr, true, false, ◌||◌, some, List, [], ◌∷◌, ◌++◌, arith, ◌==◌, Bool-cases,
  Option-cases, Text, codes, text_eq, text_eq_sound, text_eq_iff, to_lower, to_upper, trim_space,
  is_empty, Some, exists,
}
use nim_near.Hub.State.{contains_text}
use nim_near.Http.Headers.{
  HttpRequest, UrlParser, split_blank, bearer_part, is_state_changing_method, has_explicit_bearer,
  has_session_cookie, browser_origin_allowed, allowed_origin_set, cookie_mutation_passes,
  request_browser_origin,
}

-- POST, PUT, PATCH or DELETE, in any case and between any spaces.
abbrev pub IsMutation : HttpRequest → Type 0
IsMutation r =
    let m = to_upper (trim_space r.method) in
    (m ≡ codes "POST") ⊎ (m ≡ codes "PUT") ⊎ (m ≡ codes "PATCH") ⊎ (m ≡ codes "DELETE")

-- The Authorization header is `Bearer <token>`, the scheme in any case, and its token is not blank.
abbrev pub HasBearer : HttpRequest → Type 0
HasBearer r =
    (scheme : Text) × (token : Text) × (trim_space r.authorization ≡ scheme ++ (b' ' ∷ token))
    × (to_lower scheme ≡ codes "bearer")
    × (trim_space token ≢ [])

-- The browser reports this origin: in the header Origin, or without it in the URL of Referer.
abbrev pub ReportsOrigin : UrlParser → HttpRequest → Text → Type 0
ReportsOrigin parse r origin =
    (trim_space r.origin ≡ origin)
    ⊎ ((trim_space r.origin ≡ [])
        × (scheme : Text) × (host : Text) × (parse (trim_space r.referer) ≡ some (scheme, host))
        × (origin ≡ scheme ++ (codes "://" ++ host)))

-- The configuration lists this origin, and it is neither blank nor the wildcard.
abbrev pub IsConfigured : List Text → Text → Type 0
IsConfigured origins origin =
    Some (λ o. trim_space o ≡ origin) origins × (origin ≢ []) × (origin ≢ codes "*")

split_blank_sound :
    (s : Text) {scheme rest : Text}
    → split_blank s ≡ some (scheme, rest)
    → s ≡ scheme ++ (b' ' ∷ rest)
unfolding split_blank
split_blank_sound [] h = cc
split_blank_sound (c ∷ s) {scheme} {rest} h = elim (Bool-cases (c == b' ')) [
  | inl e ↦ ground (arith, e, h)
  | inr e ↦ elim (Option-cases (split_blank s)) [
    | inl f ↦ ground (arith, e, f, h)
    | inr (found, f) ↦
        ground (arith, e, f, h, split_blank_sound s {scheme = found.0} {rest = found.1} f)
  ]
]

has_explicit_bearer-HasBearer : (r : HttpRequest) → has_explicit_bearer r ≡ true → HasBearer r
unfolding has_explicit_bearer bearer_part
has_explicit_bearer-HasBearer r h = elim (Option-cases (split_blank (trim_space r.authorization))) [
  | inl f ↦ ground (arith, f, h)
  | inr (found, f) ↦ (
    found.0,
    found.1,
    split_blank_sound (trim_space r.authorization) {scheme = found.0} {rest = found.1} f,
    text_eq_sound (to_lower found.0) (codes "bearer") (ground (arith, f, h)),
    λ e. ground (arith, e, f, h),
  )
]

is_state_changing_method-IsMutation :
    (r : HttpRequest) → IsMutation r → is_state_changing_method r.method ≡ true
unfolding is_state_changing_method
is_state_changing_method-IsMutation r h = ground (
  arith,
  h,
  text_eq_iff (to_upper (trim_space r.method)) (codes "POST"),
  text_eq_iff (to_upper (trim_space r.method)) (codes "PUT"),
  text_eq_iff (to_upper (trim_space r.method)) (codes "PATCH"),
  text_eq_iff (to_upper (trim_space r.method)) (codes "DELETE"),
)

allowed_origin_set-IsConfigured :
    (origin : Text) (origins : List Text)
    → contains_text origin (allowed_origin_set origins) ≡ true
    → IsConfigured origins origin
unfolding allowed_origin_set contains_text
allowed_origin_set-IsConfigured origin [] h = cc
allowed_origin_set-IsConfigured origin (o ∷ os) h =
    elim (Bool-cases (is_empty (trim_space o) || text_eq (trim_space o) (codes "*"))) [
      | inl e ↦
          let rest = allowed_origin_set-IsConfigured origin os (ground (arith, e, h)) in
          (inr rest.0, rest.1, rest.2)
      | inr e ↦ elim (Bool-cases (text_eq (trim_space o) origin)) [
        | inl f ↦
            let same = text_eq_sound (trim_space o) origin f in
            (
              inl same,
              λ k. ground (arith, e, same, k),
              λ k. ground (arith, e, same, k, text_eq_iff (trim_space o) (codes "*")),
            )
        | inr f ↦
            let rest = allowed_origin_set-IsConfigured origin os (ground (arith, e, f, h)) in
            (inr rest.0, rest.1, rest.2)
      ]
    ]

request_browser_origin-ReportsOrigin :
    (parse : UrlParser) (r : HttpRequest) {origin : Text}
    → request_browser_origin parse r ≡ some origin
    → origin ≢ []
    → ReportsOrigin parse r origin
unfolding request_browser_origin
request_browser_origin-ReportsOrigin parse r {origin} h filled =
    elim (Bool-cases (is_empty (trim_space r.origin))) [
      | inr e ↦ inl (ground (arith, e, h))
      | inl e ↦ elim (Option-cases (parse (trim_space r.referer))) [
        | inl f ↦ ground (arith, e, f, h, filled)
        | inr (url, f) ↦ inr (ground (arith, e), url.0, url.1, f, ground (arith, e, f, h, filled))
      ]
    ]

-- A POST, PUT, PATCH or DELETE with a session cookie that is not blank reaches the next handler
-- only if it has a bearer token in its Authorization header, or the origin that the browser reports
-- is one of the configuration, without the spaces around it, and neither blank nor the wildcard.
pub cookie_mutation_passes_lem :
    (parse : UrlParser) (origins : List Text) (r : HttpRequest) (session : Text)
    → IsMutation r
    → r.cookie ≡ some session
    → trim_space session ≢ []
    → cookie_mutation_passes parse origins r ≡ true
    → HasBearer r ⊎ ((origin : Text) × ReportsOrigin parse r origin × IsConfigured origins origin)
unfolding cookie_mutation_passes browser_origin_allowed has_session_cookie
cookie_mutation_passes_lem parse origins r session m c filled h =
    elim (Bool-cases (has_explicit_bearer r)) [
      | inl b ↦ inl (has_explicit_bearer-HasBearer r b)
      | inr b ↦ elim (Option-cases (request_browser_origin parse r)) [
        | inl f ↦ ground (arith, guarded b, f)
        | inr (origin, f) ↦
            let known =
              allowed_origin_set-IsConfigured origin origins (ground (arith, guarded b, f)) in
            inr (origin, request_browser_origin-ReportsOrigin parse r f known.1, known)
      ]
    ]
  where
    guarded :
        has_explicit_bearer r ≡ false
        → exists
            (λ origin. contains_text origin (allowed_origin_set origins))
            (request_browser_origin parse r)
          ≡ true
    guarded b = ground (arith, is_state_changing_method-IsMutation r m, b, c, filled, h)
