-- ===== src/Gateway/Ident.antt =====
-- sqlident.go: which tables and columns the generic handler may name, and how they are quoted.
use nim_near.Prelude.{
  ℕ, ◌≡◌, Bool, false, not, ◌&&◌, ◌||◌, List, [], ◌∷◌, ◌++◌, leb, ◌==◌, if◌then◌else◌, Text, codes,
  to_lower, trim_space, is_empty, any, Result, ok, plain, forbidden, bad_request, require, ◌>>=◌,
  ◌>>◌,
}
use nim_near.Hub.State.{contains_text}

abbrev pub is_letter : ℕ → Bool
is_letter c = (leb b'a' c && leb c b'z') || ((leb b'A' c && leb c b'Z') || c == b'_')

abbrev pub is_word_byte : ℕ → Bool
is_word_byte c = is_letter c || (leb b'0' c && leb c b'9')

-- sqlIdentifierPattern
unfoldable pub is_sql_identifier : Text → Bool
unfolding any
is_sql_identifier [] = false
is_sql_identifier (c ∷ s) = is_letter c && not (any (λ d. not (is_word_byte d)) s)

abbrev pub denied_gateway_tables : List Text
denied_gateway_tables =
    codes "users"
    ∷ codes "user_nimiq_identities"
    ∷ codes "auth_challenges"
    ∷ codes "event_purchases"
    ∷ codes "payment_requests"
    ∷ codes "consumed_nimiq_transactions"
    ∷ codes "audit_logs"
    ∷ codes "goose_db_version"
    ∷ codes "role_permissions"
    ∷ codes "user_roles"
    ∷ codes "organization_users"
    ∷ codes "app_api_keys"
    ∷ codes "app_endpoints"
    ∷ codes "app_endpoint_policies"
    ∷ codes "places"
    ∷ codes "events"
    ∷ codes "event_participants"
    ∷ codes "calendars"
    ∷ codes "calendar_followers"
    ∷ codes "profiles"
    ∷ codes "organizations"
    ∷ codes "apps"
    ∷ codes "workspaces"
    ∷ codes "roles"
    ∷ []

abbrev pub reserved_gateway_columns : List Text
reserved_gateway_columns =
    codes "id"
    ∷ codes "organization_id"
    ∷ codes "app_id"
    ∷ codes "created_at"
    ∷ codes "updated_at"
    ∷ codes "password"
    ∷ codes "password_hash"
    ∷ codes "api_key"
    ∷ codes "secret"
    ∷ codes "token"
    ∷ codes "transaction_hash"
    ∷ []

-- pgx.Identifier{name}.Sanitize of the driver: it puts the name between double quotes, and doubles
-- the ones inside.
abbrev pub Sanitizer : Type 0
Sanitizer = Text → Text

abbrev pub quoted : Text → Text
quoted name = b'"' ∷ (name ++ (b'"' ∷ []))

abbrev pub IsSanitizer : Sanitizer → Type 0
IsSanitizer sanitize =
    (name : Text) → any (λ c. c == b'"' || c == 0) name ≡ false → sanitize name ≡ quoted name

-- The errors of this file carry a message only.
unfoldable pub validate_sql_identifier : Text → Result (Unit {0})
unfolding is_sql_identifier
validate_sql_identifier name = require (is_sql_identifier name) (plain bad_request)

unfoldable pub quote_sql_identifier : Sanitizer → Text → Result Text
unfolding validate_sql_identifier
quote_sql_identifier sanitize name = validate_sql_identifier name >> ok (sanitize name)

-- An empty allowlist contains no table.
unfoldable pub authorize_gateway_table : Text → List Text → Result (Unit {0})
unfolding validate_sql_identifier contains_text to_lower
authorize_gateway_table name allowlist = do
  validate_sql_identifier name
  require (not (contains_text (to_lower name) denied_gateway_tables)) (plain forbidden)
  require (contains_text (to_lower name) allowlist) (plain forbidden)

unfoldable pub allowlist_set : List Text → List Text
unfolding trim_space to_lower
allowlist_set [] = []
allowlist_set (table ∷ tables) =
    let name = to_lower (trim_space table) in
    let rest = allowlist_set tables in if is_empty name then rest else name ∷ rest

-- The columns that the schema of an endpoint declares, less the reserved ones, in lower case.
unfoldable pub allowed_columns : List Text → Result (List Text)
unfolding validate_sql_identifier contains_text to_lower
allowed_columns [] = ok []
allowed_columns (name ∷ names) = do
  validate_sql_identifier name
  allowed ← allowed_columns names
  ok (
      if contains_text (to_lower name) reserved_gateway_columns
      then allowed
      else to_lower name ∷ allowed)

module _ {V : Type 0} (sanitize : Sanitizer) where
  -- The loop over the input, in the order in which the map gives it: the quoted columns with their
  -- values.
  unfoldable pub checked_columns : List Text → List (Text × V) → Result (List (Text × V))
  unfolding validate_sql_identifier quote_sql_identifier contains_text to_lower
  checked_columns allowed [] = ok []
  checked_columns allowed ((name, value) ∷ input) = do
    validate_sql_identifier name
    require (not (contains_text (to_lower name) reserved_gateway_columns)) (plain bad_request)
    require (contains_text (to_lower name) allowed) (plain bad_request)
    column ← quote_sql_identifier sanitize name
    rest ← checked_columns allowed input
    ok ((column, value) ∷ rest)

  unfoldable pub authorized_columns : List (Text × V) → List Text → Result (List (Text × V))
  unfolding allowed_columns checked_columns
  authorized_columns input declared = do
    allowed ← allowed_columns declared
    checked_columns allowed input
