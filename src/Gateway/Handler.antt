-- ===== src/Gateway/Handler.antt =====
-- dynamic_handler.go: handleGeneric, from the request to the statements that it runs.
use nim_near.Prelude.{
  ℕ, ℤ, Bool, not, Option, none, some, List, [], ◌∷◌, if◌then◌else◌, Text, codes, text_eq, to_lower,
  is_empty, Result, ok, err, plain, forbidden, bad_request, internal, require, or_fail, ◌>>=◌, ◌>>◌,
}
use nim_near.Store.{Time}
use nim_near.Hub.Rooms.{Uuids}
use nim_near.Gateway.Ident.{
  Sanitizer, authorize_gateway_table, quote_sql_identifier, authorized_columns,
}
use nim_near.Gateway.Statements.{
  Endpoint, Statement, derive_table_name, extract_id_from_path, count_statement, list_statement,
  get_statement, delete_statement, create_statement, update_statement,
}

-- What the handler reads of the request and of its context. The header and the query are texts and
-- numbers that are read already; `input` is the JSON object of the body.
pub record GatewayRequest (V : Type 0) : Type 0 where
  pub organization_id : Option ℕ
  pub app_header : Text
  pub path : Text
  pub limit : ℤ
  pub offset : ℤ
  pub input : List (Text × V)

-- The switch on the lower-case action. `none` is the default branch.
pub data Action : Type 0 where
  lists gets creates updates deletes : Action

unfoldable pub action_of : Text → Option Action
unfolding to_lower text_eq
action_of action =
    if text_eq (to_lower action) (codes "list")
    then some lists
    else if text_eq (to_lower action) (codes "get")
    then some gets
    else if text_eq (to_lower action) (codes "create")
    then some creates
    else if text_eq (to_lower action) (codes "update")
    then some updates
    else if text_eq (to_lower action) (codes "patch")
    then some updates
    else if text_eq (to_lower action) (codes "delete")
    then some deletes
    else none

-- r.db == nil
abbrev pub available : Bool → Result (Unit {0})
available db = require db (plain internal)

-- Every error of authorizeGatewayTable is answered by 403.
abbrev pub or_forbidden : Result (Unit {0}) → Result (Unit {0})
or_forbidden (ok u) = ok u
or_forbidden (err e) = err (plain forbidden)

module _ {V : Type 0} (uuids : Uuids) (sanitize : Sanitizer) (db : Bool) where
  -- handleList, handleGet, handleCreate, handleUpdate and handleDelete up to the statements.
  unfoldable pub run_action :
      Action
      → Text
      → Text
      → ℕ
      → ℕ
      → ℕ
      → Time
      → GatewayRequest V
      → Endpoint
      → Result (List (Statement V))
  unfolding extract_id_from_path authorized_columns count_statement list_statement get_statement
      delete_statement create_statement update_statement
  run_action lists table raw org app id now r e =
      available db
      >> ok (count_statement table org app ∷ list_statement table org app r.limit r.offset ∷ [])
  run_action gets table raw org app id now r e = do
    available db
    record_id ← extract_id_from_path uuids r.path raw
    ok (get_statement table org app record_id ∷ [])
  run_action creates table raw org app id now r e = do
    columns ← authorized_columns sanitize r.input e.declared_fields
    available db
    ok (create_statement table org app id now columns ∷ [])
  run_action updates table raw org app id now r e = do
    record_id ← extract_id_from_path uuids r.path raw
    columns ← authorized_columns sanitize r.input e.declared_fields
    available db
    ok (update_statement table org app record_id now columns ∷ [])
  run_action deletes table raw org app id now r e = do
    available db
    record_id ← extract_id_from_path uuids r.path raw
    ok (delete_statement table org app record_id ∷ [])

  -- handleGeneric. `id` is uuid.New, and `allowed` the tables of the configuration.
  unfoldable pub handle_generic :
      List Text → ℕ → Time → GatewayRequest V → Endpoint → Result (List (Statement V))
  unfolding derive_table_name authorize_gateway_table quote_sql_identifier action_of run_action
  handle_generic allowed id now r e = do
    org ← or_fail r.organization_id (plain bad_request)
    require (not (is_empty r.app_header)) (plain bad_request)
    app ← or_fail (uuids.parse r.app_header) (plain bad_request)
    require (not (is_empty (derive_table_name e))) (plain bad_request)
    or_forbidden (authorize_gateway_table (derive_table_name e) allowed)
    table ← quote_sql_identifier sanitize (derive_table_name e)
    action ← or_fail (action_of e.backend_action) (plain bad_request)
    run_action action table (derive_table_name e) org app id now r e
