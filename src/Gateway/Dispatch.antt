-- ===== src/Gateway/Dispatch.antt =====
-- backend/internal/gateway: backend_handler.go (BackendRegistry), the choice of a handler and the
-- outbound request of the proxy in dynamic_handler.go, and resolver.go. net/url and the handlers
-- are parameters.
use nim_near.Prelude.{
  ℕ, Bool, false, not, ◌||◌, Option, none, some, List, [], ◌∷◌, Text, codes, text_eq, to_lower,
  is_empty, is_none, if◌then◌else◌, select, Result, ok, ◌>>=◌, ◌≡◌, refl, arith,
}
use nim_near.Hub.Rooms.{strip_prefix}

-- A Go map with texts as keys.
abbrev pub Keyed : Type 0 → Type 0
Keyed A = List (Text × A)

unfoldable pub at_key : {A : Type 0} → Text → Keyed A → Option A
at_key k [] = none
at_key k ((l, a) ∷ rest) = if text_eq l k then some a else at_key k rest

unfoldable pub without_key : {A : Type 0} → Text → Keyed A → Keyed A
without_key k rest = select (λ (l, a). not (text_eq l k)) rest

-- Register, and RegisterServiceConfig.
abbrev pub register_key : {A : Type 0} → Text → A → Keyed A → Keyed A
register_key k a rest = (k, a) ∷ without_key k rest

pub record ServiceConfig : Type 0 where
  pub base_url : Text
  pub headers : Keyed Text
  pub timeout : ℕ

-- url.Parse: whether a text is a URL with a scheme and a host, and the text of
-- base.ResolveReference with a path and a raw query (`none` is an error).
pub record Urls : Type 0 where
  pub has_scheme_and_host : Text → Bool
  pub resolve : Text → Text → Text → Option Text

-- DynamicHandlerResolver
pub record HandlerResolver (H : Type 0) : Type 0 where
  pub registry : Keyed H
  pub service_config : Keyed ServiceConfig

-- What ResolveHandler calls.
pub data Target (H : Type 0) : Type 0 where
  registered : H → Target H
  proxied : ServiceConfig → Target H
  generic : Target H

unfoldable pub with_base_url : Option ServiceConfig → Option ServiceConfig
with_base_url none = none
with_base_url (some c) = if is_empty c.base_url then none else some c

abbrev pub url_config : Text → ServiceConfig
url_config url = record { base_url = url; headers = []; timeout = 0 }

module _ {H : Type 0} (urls : Urls) (r : HandlerResolver H) where
  unfoldable pub is_registered : Text → Bool
  is_registered name =
      not (is_none (at_key name r.registry))
      || not (is_none (at_key name r.service_config))
      || urls.has_scheme_and_host name

  unfoldable pub resolve_handler : Text → Target H
  resolve_handler name = elim (at_key name r.registry) [
    | some h ↦ registered h
    | none ↦ elim (with_base_url (at_key name r.service_config)) [
      | some c ↦ proxied c
      | none ↦ if urls.has_scheme_and_host name then proxied (url_config name) else generic
    ]
  ]

-- buildTargetURL
unfoldable pub proxy_path : Text → Text → Text
unfolding strip_prefix
proxy_path endpoint_path request_path =
    if not (is_empty endpoint_path)
    then endpoint_path
    else elim (strip_prefix (codes "/api/v1") request_path) [
      | none ↦ request_path
      | some rest ↦ rest
    ]

unfoldable pub build_target_url : Urls → Text → Text → Text → Text → Option Text
unfolding proxy_path
build_target_url urls base endpoint_path request_path raw_query =
    urls.resolve base (proxy_path endpoint_path request_path) raw_query

-- http.Header.Set and http.Header.Del, with the names of headers compared in any case.
abbrev pub same_header : Text → Text → Bool
same_header a b = text_eq (to_lower a) (to_lower b)

unfoldable pub del_header : Text → Keyed Text → Keyed Text
del_header name headers = select (λ (l, a). not (same_header l name)) headers

abbrev pub set_header : Text → Text → Keyed Text → Keyed Text
set_header name value headers = (name, value) ∷ del_header name headers

unfoldable pub set_headers : Keyed Text → Keyed Text → Keyed Text
set_headers [] headers = headers
set_headers ((k, v) ∷ rest) headers = set_headers rest (set_header k v headers)

-- The headers of the outbound request in handleHTTPProxy.
unfoldable pub proxy_headers : ServiceConfig → Keyed Text → Keyed Text
unfolding set_headers del_header to_lower
proxy_headers c headers =
    del_header (codes "X-Organization-ID")
      (del_header (codes "X-App-ID") (set_headers c.headers headers))

-- Resolver of resolver.go: the repositories, and the hash of a raw key.
pub record Tenants : Type 0 where
  pub hash : Text → Text
  pub api_key_app : Text → Result ℕ
  pub app_organization : ℕ → Result ℕ

unfoldable pub resolve_app_by_api_key : Tenants → Text → Result (ℕ × ℕ)
resolve_app_by_api_key t raw = do
  app ← t.api_key_app (t.hash raw)
  org ← t.app_organization app
  ok (org, app)

-- No header of this name, in any case, is sent.
unfoldable pub sends_header : Text → Keyed Text → Bool
sends_header name [] = false
sends_header name ((l, a) ∷ rest) = same_header l name || sends_header name rest

del_header-sends_header :
    (name other : Text) (headers : Keyed Text)
    → sends_header name headers ≡ false
    → sends_header name (del_header other headers) ≡ false
unfolding sends_header del_header select
del_header-sends_header name other [] h = refl
del_header-sends_header name other ((l, a) ∷ rest) h =
    ground (arith, del_header-sends_header name other rest)

sends_header-del_header :
    (name : Text) (headers : Keyed Text) → sends_header name (del_header name headers) ≡ false
unfolding sends_header del_header select
sends_header-del_header name [] = refl
sends_header-del_header name ((l, a) ∷ rest) = ground (arith, sends_header-del_header name rest)

-- The proxied request has neither of the gateway's own headers, whatever the client sent and the
-- configuration sets.
proxy_headers-sends_header :
    (c : ServiceConfig) (headers : Keyed Text)
    → (sends_header (codes "X-App-ID") (proxy_headers c headers) ≡ false)
      × (sends_header (codes "X-Organization-ID") (proxy_headers c headers) ≡ false)
unfolding proxy_headers
proxy_headers-sends_header c headers = (
  del_header-sends_header (codes "X-App-ID") (codes "X-Organization-ID")
      (del_header (codes "X-App-ID") (set_headers c.headers headers))
      (sends_header-del_header (codes "X-App-ID") (set_headers c.headers headers)),
  sends_header-del_header (codes "X-Organization-ID")
      (del_header (codes "X-App-ID") (set_headers c.headers headers)),
)
