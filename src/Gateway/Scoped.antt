-- ===== src/Gateway/Scoped.antt =====
-- handleGeneric: what a request that is not refused may name and touch.
use nim_near.Prelude.{
  ℕ, ◌≡◌, refl, subst, Bool, true, false, not, some, List, Text, to_lower, is_empty, All, Result,
  ok, err, plain, bad_request, forbidden, require, or_fail, bind-eq-ok, require-eq-ok,
  or_fail-eq-ok,
}
use nim_near.Store.{Time}
use nim_near.Hub.Rooms.{Uuids}
use nim_near.Hub.State.{contains_text}
use nim_near.Gateway.Ident.{
  Sanitizer, authorize_gateway_table, quote_sql_identifier, authorized_columns,
  validate_sql_identifier, denied_gateway_tables, is_sql_identifier,
}
use nim_near.Gateway.Statements.{Statement, Endpoint, derive_table_name, extract_id_from_path}
use nim_near.Gateway.Columns.{ok-same}
use nim_near.Gateway.Handler.{
  GatewayRequest, Action, lists, gets, creates, updates, deletes, action_of, run_action,
  handle_generic, available, or_forbidden,
}
use nim_near.Gateway.Safe.{
  IsScoped, count_statement-IsScoped, list_statement-IsScoped, get_statement-IsScoped,
  delete_statement-IsScoped, create_statement-IsScoped, update_statement-IsScoped,
}

-- A table that the configuration allows, and that is none of the program's own.
abbrev pub IsAllowedTable : List Text → Text → Type 0
IsAllowedTable allowed name =
    (is_sql_identifier name ≡ true)
    × (contains_text (to_lower name) denied_gateway_tables ≡ false)
    × (contains_text (to_lower name) allowed ≡ true)

or_forbidden-eq-ok : (m : Result (Unit {0})) {u : Unit {0}} → or_forbidden m ≡ ok u → m ≡ ok tt
or_forbidden-eq-ok (ok v) h = refl
or_forbidden-eq-ok (err e) h = cc

not-true : (b : Bool) → not b ≡ true → b ≡ false
not-true false h = refl
not-true true h = cc

authorize_gateway_table-IsAllowedTable :
    (allowed : List Text) (name : Text) {u : Unit {0}}
    → or_forbidden (authorize_gateway_table name allowed) ≡ ok u
    → IsAllowedTable allowed name
unfolding authorize_gateway_table validate_sql_identifier
authorize_gateway_table-IsAllowedTable allowed name h =
    let a =
      bind-eq-ok (require (is_sql_identifier name) (plain bad_request)) _
        (or_forbidden-eq-ok (authorize_gateway_table name allowed) h) in
    let b =
      bind-eq-ok
        (require (not (contains_text (to_lower name) denied_gateway_tables)) (plain forbidden)) _
        a.2 in
    (
      require-eq-ok (is_sql_identifier name) (plain bad_request) a.1,
      not-true (contains_text (to_lower name) denied_gateway_tables) (
          require-eq-ok (not (contains_text (to_lower name) denied_gateway_tables))
            (plain forbidden) b.1),
      require-eq-ok (contains_text (to_lower name) allowed) (plain forbidden) b.2,
    )

module _ {V : Type 0} (uuids : Uuids) (sanitize : Sanitizer) (db : Bool) where
  -- The columns that authorizedColumns has returned for the request.
  abbrev pub AreAuthorized : GatewayRequest V → Endpoint → List (Text × V) → Type 0
  AreAuthorized r e columns = authorized_columns sanitize r.input e.declared_fields ≡ ok columns

  -- The id that the path of the request has for a table.
  abbrev pub IsInPath : GatewayRequest V → Text → ℕ → Type 0
  IsInPath r raw id = extract_id_from_path uuids r.path raw ≡ ok id

  run_action-IsScoped :
      (action : Action) (table raw : Text) (org app id : ℕ) (now : Time) (r : GatewayRequest V)
      (e : Endpoint) {statements : List (Statement V)}
      → run_action uuids sanitize db action table raw org app id now r e ≡ ok statements
      → All (IsScoped (AreAuthorized r e) (IsInPath r raw) table org app) statements
  unfolding run_action
  run_action-IsScoped lists table raw org app id now r e h =
      let a = bind-eq-ok (available db) _ h in
      subst (All (IsScoped (AreAuthorized r e) (IsInPath r raw) table org app)) (ok-same a.2) (
        count_statement-IsScoped (AreAuthorized r e) (IsInPath r raw) table org app,
        (
          list_statement-IsScoped (AreAuthorized r e) (IsInPath r raw) table org app r.limit
              r.offset,
          tt,
        ),
      )
  run_action-IsScoped gets table raw org app id now r e h =
      let a = bind-eq-ok (available db) _ h in
      let b = bind-eq-ok (extract_id_from_path uuids r.path raw) _ a.2 in
      subst (All (IsScoped (AreAuthorized r e) (IsInPath r raw) table org app)) (ok-same b.2)
        (get_statement-IsScoped (AreAuthorized r e) (IsInPath r raw) table org app b.0 b.1, tt)
  run_action-IsScoped creates table raw org app id now r e h =
      let a = bind-eq-ok (authorized_columns sanitize r.input e.declared_fields) _ h in
      let b = bind-eq-ok (available db) _ a.2 in
      subst (All (IsScoped (AreAuthorized r e) (IsInPath r raw) table org app)) (ok-same b.2) (
        create_statement-IsScoped (AreAuthorized r e) (IsInPath r raw) table org app id now a.0 a.1,
        tt,
      )
  run_action-IsScoped updates table raw org app id now r e h =
      let a = bind-eq-ok (extract_id_from_path uuids r.path raw) _ h in
      let b = bind-eq-ok (authorized_columns sanitize r.input e.declared_fields) _ a.2 in
      let c = bind-eq-ok (available db) _ b.2 in
      subst (All (IsScoped (AreAuthorized r e) (IsInPath r raw) table org app)) (ok-same c.2) (
        update_statement-IsScoped (AreAuthorized r e) (IsInPath r raw) table org app a.0 now b.0 b.1
            a.1,
        tt,
      )
  run_action-IsScoped deletes table raw org app id now r e h =
      let a = bind-eq-ok (available db) _ h in
      let b = bind-eq-ok (extract_id_from_path uuids r.path raw) _ a.2 in
      subst (All (IsScoped (AreAuthorized r e) (IsInPath r raw) table org app)) (ok-same b.2)
        (delete_statement-IsScoped (AreAuthorized r e) (IsInPath r raw) table org app b.0 b.1, tt)

  -- A request that handleGeneric does not refuse has an organization and an app. Its table, as the
  -- driver quotes its name, is allowed and none of the program's own, and every statement that it
  -- runs is on this table: an INSERT of a row for the organization and the app, or a SELECT, DELETE
  -- or UPDATE whose WHERE clause is exactly the condition on the organization and the app, with at
  -- most one on an id besides, which is the id in the path of the request. The arguments of these
  -- placeholders are the ones of the request, and the columns that are written are those that
  -- authorizedColumns returned.
  pub handle_generic-IsScoped :
      (allowed : List Text) (id : ℕ) (now : Time) (r : GatewayRequest V) (e : Endpoint)
      {statements : List (Statement V)}
      → handle_generic uuids sanitize db allowed id now r e ≡ ok statements
      → (org : ℕ) × (app : ℕ) × (table : Text) × (r.organization_id ≡ some org)
        × (uuids.parse r.app_header ≡ some app)
        × IsAllowedTable allowed (derive_table_name e)
        × (quote_sql_identifier sanitize (derive_table_name e) ≡ ok table)
        × All
            (IsScoped (AreAuthorized r e) (IsInPath r (derive_table_name e)) table org app)
            statements
  unfolding handle_generic
  handle_generic-IsScoped allowed id now r e h =
      let a = bind-eq-ok (or_fail r.organization_id (plain bad_request)) _ h in
      let b = bind-eq-ok (require (not (is_empty r.app_header)) (plain bad_request)) _ a.2 in
      let c = bind-eq-ok (or_fail (uuids.parse r.app_header) (plain bad_request)) _ b.2 in
      let d =
        bind-eq-ok (require (not (is_empty (derive_table_name e))) (plain bad_request)) _ c.2 in
      let f =
        bind-eq-ok (or_forbidden (authorize_gateway_table (derive_table_name e) allowed)) _ d.2 in
      let g = bind-eq-ok (quote_sql_identifier sanitize (derive_table_name e)) _ f.2 in
      let k = bind-eq-ok (or_fail (action_of e.backend_action) (plain bad_request)) _ g.2 in
      (
        a.0,
        c.0,
        g.0,
        or_fail-eq-ok r.organization_id (plain bad_request) a.1,
        or_fail-eq-ok (uuids.parse r.app_header) (plain bad_request) c.1,
        authorize_gateway_table-IsAllowedTable allowed (derive_table_name e) f.1,
        g.1,
        run_action-IsScoped k.0 g.0 (derive_table_name e) a.0 c.0 id now r e k.2,
      )
