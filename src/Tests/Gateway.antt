-- ===== src/Tests/Gateway.antt =====
-- Runs of the gateway and of the middleware, and the theorems about them at concrete inputs.
use nim_near.Prelude.{
  ℕ, ◌≡◌, ◌≢◌, ◌⊎◌, inl, refl, pos, true, none, some, List, [], ◌∷◌, arith, ◌==◌, Text, codes,
  text_eq, to_lower, to_upper, trim_space, trim_left, any, All, ok, err, plain, internal, ◌>>=◌,
}
use nim_near.Money.Decimal.{format_int, value}
use nim_near.Hub.Rooms.{Uuids, strip_prefix}
use nim_near.Hub.State.{contains_text}
use nim_near.Gateway.Ident.{
  IsSanitizer, quoted, is_sql_identifier, validate_sql_identifier, quote_sql_identifier,
  authorize_gateway_table, checked_columns, allowed_columns, authorized_columns,
}
use nim_near.Gateway.Statements.{
  Endpoint, delete_statement, derive_table_name, extract_id_from_path, id_after, path_parts,
  trim_slashes, split_slash, trim_suffix,
}
use nim_near.Gateway.Handler.{GatewayRequest, handle_generic, run_action, action_of}
use nim_near.Gateway.Columns.{AreWritable, authorized_columns-AreWritable}
use nim_near.Gateway.Safe.{IsScoped}
use nim_near.Gateway.Scoped.{IsAllowedTable, AreAuthorized, IsInPath, handle_generic-IsScoped}
use nim_near.Gateway.Pipeline.{
  Policies, EndpointCall, routed, enforce, enforce_app, enforce_endpoint, lookup_path,
  should_skip_pipeline, check_permission, check_rate_limit,
}
use nim_near.Http.ClientIp.{
  Net, TrustedProxies, Headers, resolve, parse_ip, trusts, trim_brackets, trim_brackets_left,
  split_comma,
}
use nim_near.Http.Trust.{IsHop, resolve-forwarded}
use nim_near.Http.Headers.{
  HttpRequest, UrlParser, is_state_changing_method, has_explicit_bearer, has_session_cookie,
  cookie_mutation_passes, browser_origin_allowed, request_browser_origin, allowed_origin_set,
  bearer_part, split_blank,
}
use nim_near.Http.Origins.{
  IsMutation, HasBearer, ReportsOrigin, IsConfigured, cookie_mutation_passes_lem,
}

abbrev pub uuids : Uuids
uuids = record { to_text = format_int; parse = λ s. some (value s 0) }

-- pgx.Identifier.Sanitize, for a name without a double quote.
quoted-IsSanitizer : IsSanitizer quoted
quoted-IsSanitizer name h = refl

abbrev orders : Endpoint
orders = record {
  backend_service = codes "order-service";
  backend_action = codes "Delete";
  table_name = none;
  declared_fields = codes "Amount" ∷ codes "id" ∷ [];
}

abbrev request : Text → GatewayRequest ℕ
request path = record {
  organization_id = some 1;
  app_header = codes "2";
  path = path;
  limit = pos 0;
  offset = pos 0;
  input = [];
}

derives_orders : derive_table_name orders ≡ codes "orders"
unfolding derive_table_name trim_suffix strip_prefix
derives_orders = refl

deletes_order :
    handle_generic uuids quoted true (codes "orders" ∷ []) 9 0 (request (codes "/order/5")) orders
    ≡ ok (delete_statement (codes "\"orders\"") 1 2 5 ∷ [])
unfolding handle_generic derive_table_name trim_suffix strip_prefix authorize_gateway_table
    validate_sql_identifier is_sql_identifier any contains_text text_eq to_lower
    quote_sql_identifier action_of run_action extract_id_from_path id_after path_parts trim_slashes
    split_slash value ◌>>=◌
deletes_order = refl

-- The path that the comment of handleGet shows has no id for the handler: the part before it must
-- be the singular.
plural_path : extract_id_from_path uuids (codes "/orders/5") (codes "orders") ≡ err (plain internal)
unfolding extract_id_from_path id_after path_parts trim_slashes split_slash trim_suffix strip_prefix
    text_eq to_lower
plural_path = refl

handle_generic-IsScoped_example :
    (org : ℕ) × (app : ℕ) × (table : Text) × (some 1 ≡ some org)
    × (some (value (codes "2") 0) ≡ some app)
    × IsAllowedTable (codes "orders" ∷ []) (derive_table_name orders)
    × (quote_sql_identifier quoted (derive_table_name orders) ≡ ok table)
    × All
        (IsScoped
          (AreAuthorized uuids quoted true (request (codes "/order/5")) orders)
          (IsInPath uuids quoted true (request (codes "/order/5")) (derive_table_name orders))
          table
          org
          app)
        (delete_statement (codes "\"orders\"") 1 2 5 ∷ [])
handle_generic-IsScoped_example =
    handle_generic-IsScoped uuids quoted true (codes "orders" ∷ []) 9 0 (request (codes "/order/5"))
      orders deletes_order

columns :
    authorized_columns {V = ℕ} quoted ((codes "amount", 4) ∷ []) (codes "Amount" ∷ codes "id" ∷ [])
    ≡ ok ((codes "\"amount\"", 4) ∷ [])
unfolding authorized_columns allowed_columns checked_columns validate_sql_identifier
    quote_sql_identifier is_sql_identifier any contains_text text_eq to_lower ◌>>=◌
columns = refl

authorized_columns-AreWritable_example :
    (allowed : List Text) × (allowed_columns (codes "Amount" ∷ codes "id" ∷ []) ≡ ok allowed)
    × AreWritable quoted quoted-IsSanitizer {V = ℕ} allowed
        ((codes "amount", 4) ∷ [])
        ((codes "\"amount\"", 4) ∷ [])
authorized_columns-AreWritable_example =
    authorized_columns-AreWritable quoted quoted-IsSanitizer {V = ℕ} ((codes "amount", 4) ∷ [])
      (codes "Amount" ∷ codes "id" ∷ []) columns

abbrev pub policies : Policies
policies = record {
  endpoint = λ app path. some (record { id = 6; active = true });
  policy = λ id. some (record { required_permission = codes "orders:read"; rate_limit = 10 });
  rbac = λ user org permission. some (user == 7);
  incr = some (λ app endpoint. some 3);
  intercepts = λ e. true;
}

abbrev pub call : EndpointCall
call = record {
  path = codes "/api/v1/orders";
  app_header = codes "2";
  user_id = some 7;
  organization_id = some 1;
}

routes : enforce uuids policies call ≡ routed 6
unfolding enforce enforce_app enforce_endpoint should_skip_pipeline any strip_prefix lookup_path
    check_permission check_rate_limit value
routes = refl

-- An address is the first byte of its text, and p and q are trusted proxies.
abbrev net : Net
net = record {
  split_host = λ s. none;
  parse_addr = λ s. elim s [ [] ↦ none | c ∷ rest ↦ some c ];
  addr_text = λ ip. ip ∷ [];
}

abbrev proxies : TrustedProxies
proxies = (λ ip. ip == b'p') ∷ (λ ip. ip == b'q') ∷ []

abbrev forwarded : Headers
forwarded = record { remote_addr = codes "p"; forwarded_for = codes "z, c, q"; real_ip = codes "z" }

spaced-IsHop : IsHop net proxies (codes " q")
unfolding parse_ip trusts any trim_space trim_left trim_brackets trim_brackets_left
spaced-IsHop ip h = ground (arith, h)

resolve-forwarded_example : resolve net proxies forwarded ≡ codes "c"
unfolding parse_ip trusts any trim_space trim_left trim_brackets trim_brackets_left split_comma
resolve-forwarded_example =
    resolve-forwarded net proxies forwarded b'p' b'c' (codes " q" ∷ []) (codes "z" ∷ [])
      (codes " c") refl refl refl refl (spaced-IsHop, tt) refl refl

abbrev post : HttpRequest
post = record {
  method = codes "post";
  authorization = [];
  origin = codes "https://app";
  referer = [];
  cookie = some (codes "session");
}

abbrev no_urls : UrlParser
no_urls text = none

post_mutates : IsMutation post
unfolding to_upper trim_space trim_left
post_mutates = inl refl

session_filled : trim_space (codes "session") ≢ []
unfolding trim_space trim_left
session_filled h = cc

post_passes : cookie_mutation_passes no_urls (codes "https://app" ∷ []) post ≡ true
unfolding is_state_changing_method has_explicit_bearer has_session_cookie cookie_mutation_passes
    browser_origin_allowed allowed_origin_set request_browser_origin bearer_part split_blank text_eq
    to_upper to_lower trim_space trim_left contains_text
post_passes = refl

cookie_mutation_passes_lem_example :
    HasBearer post
    ⊎ ((origin : Text) × ReportsOrigin no_urls post origin
        × IsConfigured (codes "https://app" ∷ []) origin)
cookie_mutation_passes_lem_example =
    cookie_mutation_passes_lem no_urls (codes "https://app" ∷ []) post (codes "session")
      post_mutates refl session_filled post_passes
