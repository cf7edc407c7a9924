-- ===== src/Gateway/Preserved.antt =====
-- No call of the management but its activation takes an endpoint out of retirement.
use nim_near.Prelude.{
  ℕ, ◌≡◌, ◌≢◌, refl, sym, subst, ◌∙◌, true, not, ◌&&◌, List, [], ◌∷◌, arith, ◌==◌, any,
  update_where, All, All-update_where, find-holds, Result, ok, err, require, ◌>>=◌, plain,
  not_found, internal, already_exists, bad_request, bind-eq-ok, require-eq-ok, or_fail-eq-ok,
}
use nim_near.Gateway.Endpoints.{
  EndpointStatus, status_eq, EndpointRow, PolicyRow, ManagementDb, Access, get_endpoint, conflicts,
  stamped, create_endpoint, overwritten, update_endpoint, create_policy, update_policy_row,
}
use nim_near.Gateway.Management.{
  ManagementEvent, DefineRequest, endpoint_of_request, define_endpoint, set_status, PolicyRequest,
  save_policy, update_policy, with_request, new_policy, ManagementCall, define, activate, retire,
  set_policy, written, step, run_calls, activate_endpoint, retire_endpoint, endpoint_activated,
  endpoint_retired,
}

-- There is a row with this id, and every such row is retired.
pub record IsRetired (id : ℕ) (rows : List EndpointRow) : Type 0 where
  pub known : any (λ e. e.id == id) rows ≡ true
  pub all_retired : All (λ e. (e.id == id) ≡ true → e.status ≡ EndpointStatus.retired) rows

abbrev pub IsRetiredIn : ℕ → ManagementDb → Type 0
IsRetiredIn id db = IsRetired id db.endpoints

pub any-overwritten :
    (id key : ℕ) (e : EndpointRow) (now : ℕ) (rows : List EndpointRow)
    → any (λ r. r.id == id) (update_where (λ r. r.id == key) (overwritten e now) rows)
      ≡ any (λ r. r.id == id) rows
unfolding any update_where
any-overwritten id key e now [] = refl
any-overwritten id key e now (r ∷ rows) = ground (arith, any-overwritten id key e now rows)

-- A row that is written elsewhere, or that is written as retired, keeps the endpoint retired.
update_endpoint-IsRetired :
    (a : Access) (id : ℕ) (e : EndpointRow) (rows rows' : List EndpointRow)
    → ((e.id == id) ≡ true → e.status ≡ EndpointStatus.retired)
    → IsRetired id rows
    → update_endpoint a e rows ≡ ok rows'
    → IsRetired id rows'
unfolding update_endpoint ◌>>=◌
update_endpoint-IsRetired a id e rows rows' safe h k =
    let kept : IsRetired id (update_where (λ row. row.id == e.id) (overwritten e a.now) rows) =
      record {
        known = any-overwritten id e.id e a.now rows ∙ h.known;
        all_retired =
            All-update_where (λ row. row.id == e.id) (overwritten e a.now) rows
              (λ row same old m. safe (ground (arith, same, m))) h.all_retired;
      } in
    subst (IsRetired id) (ground (arith, k)) kept

any-conflicts :
    (id : ℕ) (e : EndpointRow) (rows : List EndpointRow)
    → any (λ r. r.id == id) rows ≡ true
    → (e.id == id) ≡ true
    → any (conflicts e) rows ≡ true
unfolding any
any-conflicts id e [] h k = cc
any-conflicts id e (r ∷ rows) h k = ground (arith, any-conflicts id e rows)

-- An id that is taken is not given to a new row.
create_endpoint-IsRetired :
    (a : Access) (id : ℕ) (e row : EndpointRow) (rows rows' : List EndpointRow)
    → IsRetired id rows
    → create_endpoint a e rows ≡ ok (row, rows')
    → IsRetired id rows'
unfolding create_endpoint any
create_endpoint-IsRetired a id e row rows rows' h k =
    let (_, free, made) =
      bind-eq-ok (require (a.writes && not (any (conflicts (stamped a e)) rows)) (plain internal)) _
        k in
    let fits = require-eq-ok _ (plain internal) free in
    let kept : IsRetired id (stamped a e ∷ rows) = record {
      known = ground (arith, h.known);
      all_retired = (
        λ m. absurd (ground (arith, fits, any-conflicts id (stamped a e) rows h.known m)),
        h.all_retired,
      );
    } in
    subst (IsRetired id) (ground (arith, made)) kept

set_status-IsRetired :
    (a : Access) (id key : ℕ) (status : EndpointStatus) (event : ℕ → ℕ → ℕ → ManagementEvent)
    (db db' : ManagementDb) {events : List ManagementEvent}
    → ((key == id) ≡ true → status ≡ EndpointStatus.retired)
    → IsRetiredIn id db
    → set_status a status event key db ≡ ok (tt, db', events)
    → IsRetiredIn id db'
unfolding set_status get_endpoint
set_status-IsRetired a id key status event db db' safe h k =
    let (e, found, k1) = bind-eq-ok (get_endpoint a key db.endpoints) _ k in
    let (_, changed, k2) =
      bind-eq-ok (require (not (status_eq e.status status)) (plain bad_request)) _ k1 in
    let (rows, saved, k3) =
      bind-eq-ok (update_endpoint a (record e { status = status }) db.endpoints) _ k2 in
    let (_, _, k4) = bind-eq-ok (require a.reads (plain internal)) _ found in
    let same = find-holds (λ r. r.id == key) db.endpoints (or_fail-eq-ok _ (plain not_found) k4) in
    let kept =
      update_endpoint-IsRetired a id (record e { status = status }) db.endpoints rows
        (λ m. safe (ground (arith, same, m))) h saved in
    subst (IsRetired id) (ground (arith, k3)) kept

define_endpoint-IsRetired :
    (a : Access) (id app : ℕ) (r : DefineRequest) (db db' : ManagementDb) {row : EndpointRow}
    {events : List ManagementEvent}
    → IsRetiredIn id db
    → define_endpoint a app r db ≡ ok (row, db', events)
    → IsRetiredIn id db'
unfolding define_endpoint
define_endpoint-IsRetired a id app r db db' h k =
    let (_, fresh, k1) = bind-eq-ok (require _ (plain already_exists)) _ k in
    let ((made, rows), created, k2) =
      bind-eq-ok (create_endpoint a (endpoint_of_request app r) db.endpoints) _ k1 in
    subst (IsRetired id) (ground (arith, k2))
      (create_endpoint-IsRetired a id (endpoint_of_request app r) made db.endpoints rows h created)

save_policy-endpoints :
    (a : Access) (endpoint : ℕ) (r : PolicyRequest) (db db' : ManagementDb)
    (found : Result PolicyRow) {q : PolicyRow} {events : List ManagementEvent}
    → save_policy a endpoint r db found ≡ ok (q, db', events)
    → db'.endpoints ≡ db.endpoints
unfolding save_policy create_policy
save_policy-endpoints a endpoint r db db' (ok q) k =
    let (rows, saved, k1) = bind-eq-ok (update_policy_row a (with_request r q) db.policies) _ k in
    ground (arith, k1)
save_policy-endpoints a endpoint r db db' (err e) k =
    let ((q, db1), created, k1) =
      bind-eq-ok (create_policy a (with_request r (new_policy endpoint)) db) _ k in
    let (_, fits, k2) = bind-eq-ok (require _ (plain internal)) _ created in ground (arith, k1, k2)

policies-IsRetired :
    (a : Access) (id endpoint : ℕ) (r : PolicyRequest) (db db' : ManagementDb) {q : PolicyRow}
    {events : List ManagementEvent}
    → IsRetiredIn id db
    → update_policy a endpoint r db ≡ ok (q, db', events)
    → IsRetiredIn id db'
unfolding update_policy
policies-IsRetired a id endpoint r db db' h k =
    subst (IsRetired id) (sym (save_policy-endpoints a endpoint r db db' _ k)) h

-- The call is not the activation of this endpoint.
abbrev pub IsNotActivation : ℕ → ManagementCall → Type 0
IsNotActivation id (activate a key) = key ≢ id
IsNotActivation id c = Unit

written-IsRetired :
    {A : Type 0} (id : ℕ) (db : ManagementDb) (r : Result (A × ManagementDb × List ManagementEvent))
    → IsRetiredIn id db
    → ((x : A) (db' : ManagementDb) (events : List ManagementEvent)
        → r ≡ ok (x, db', events)
        → IsRetiredIn id db')
    → IsRetiredIn id (written db r)
written-IsRetired id db (ok (x, db', events)) h keep = keep x db' events refl
written-IsRetired id db (err e) h keep = h

step-IsRetired :
    (id : ℕ) (c : ManagementCall) (db : ManagementDb)
    → IsNotActivation id c
    → IsRetiredIn id db
    → IsRetiredIn id (step c db)
unfolding step
step-IsRetired id (define a app r) db w h =
    written-IsRetired id db (define_endpoint a app r db) h
      (λ row db' events k. define_endpoint-IsRetired a id app r db db' h k)
step-IsRetired id (activate a key) db w h =
    written-IsRetired id db (activate_endpoint a key db) h (λ _ db' events k.
      set_status-IsRetired a id key EndpointStatus.active endpoint_activated db db'
        (λ m. absurd (w (ground (arith, m)))) h k)
step-IsRetired id (retire a key) db w h =
    written-IsRetired id db (retire_endpoint a key db) h (λ _ db' events k.
      set_status-IsRetired a id key EndpointStatus.retired endpoint_retired db db' (λ m. refl) h k)
step-IsRetired id (set_policy a key r) db w h =
    written-IsRetired id db (update_policy a key r db) h
      (λ q db' events k. policies-IsRetired a id key r db db' h k)

pub run_calls-IsRetired :
    (id : ℕ) (cs : List ManagementCall) (db : ManagementDb)
    → All (IsNotActivation id) cs
    → IsRetiredIn id db
    → IsRetiredIn id (run_calls cs db)
unfolding run_calls
run_calls-IsRetired id [] db w h = h
run_calls-IsRetired id (c ∷ cs) db w h =
    run_calls-IsRetired id cs (step c db) w.1 (step-IsRetired id c db w.0 h)
