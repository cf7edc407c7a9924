-- ===== src/Gateway/Retired.antt =====
-- A retired endpoint is out of the reach of the pipeline until it is activated.
use nim_near.Prelude.{
  ℕ, ◌≡◌, ◌≢◌, refl, ap, subst, ◌∙◌, inl, inr, Bool, true, false, not, some, List, [], ◌∷◌, Text,
  codes, arith, ◌==◌, any, find, update_where, All, find-All, find-holds, ok, require, ◌>>=◌, plain,
  not_found, internal, bad_request, bind-eq-ok, or_fail-eq-ok, Option-cases,
}
use nim_near.Hub.Rooms.{Uuids}
use nim_near.Gateway.Pipeline.{Policies, EndpointCall, Managed, routed, enforce, lookup_path}
use nim_near.Gateway.Routed.{enforce-routed}
use nim_near.Gateway.Endpoints.{
  EndpointStatus, status_eq, EndpointRow, ManagementDb, Access, get_endpoint, get_by_method_path,
  has_route, overwritten, update_endpoint,
}
use nim_near.Gateway.Management.{
  ManagementEvent, set_status, ManagementCall, run_calls, managed_of, over_tables, retire_endpoint,
}
use nim_near.Gateway.Preserved.{
  IsRetired, IsRetiredIn, IsNotActivation, any-overwritten, run_calls-IsRetired,
}

find-any :
    (p : EndpointRow → Bool) (rows : List EndpointRow) {e : EndpointRow}
    → find p rows ≡ some e
    → any p rows ≡ true
unfolding find any
find-any p [] h = cc
find-any p (r ∷ rows) {e} h = ground (arith, h, find-any p rows {e = e})

overwritten-retired :
    (id now : ℕ) (e : EndpointRow) (rows : List EndpointRow)
    → e.status ≡ EndpointStatus.retired
    → (e.id == id) ≡ true
    → All
        (λ r. (r.id == id) ≡ true → r.status ≡ EndpointStatus.retired)
        (update_where (λ r. r.id == e.id) (overwritten e now) rows)
unfolding update_where
overwritten-retired id now e [] s same = tt
overwritten-retired id now e (r ∷ rows) s same =
    (λ m. ground (arith, s, same, m), overwritten-retired id now e rows s same)

-- What a call of retire leaves behind.
retire_endpoint-IsRetired :
    (a : Access) (id : ℕ) (db db' : ManagementDb) {events : List ManagementEvent}
    → retire_endpoint a id db ≡ ok (tt, db', events)
    → IsRetiredIn id db'
unfolding set_status get_endpoint update_endpoint
retire_endpoint-IsRetired a id db db' k =
    let (e, found, k1) = bind-eq-ok (get_endpoint a id db.endpoints) _ k in
    let (_, changed, k2) =
      bind-eq-ok (require (not (status_eq e.status EndpointStatus.retired)) (plain bad_request)) _
        k1 in
    let retired_row : EndpointRow = record e { status = EndpointStatus.retired } in
    let (rows, saved, k3) = bind-eq-ok (update_endpoint a retired_row db.endpoints) _ k2 in
    let (_, _, k4) = bind-eq-ok (require a.writes (plain internal)) _ saved in
    let (_, _, k5) = bind-eq-ok (require a.reads (plain internal)) _ found in
    let row = or_fail-eq-ok _ (plain not_found) k5 in
    let same = find-holds (λ r. r.id == id) db.endpoints row in
    let kept : IsRetired id
        (update_where (λ r. r.id == e.id) (overwritten retired_row a.now) db.endpoints) =
      record {
        known =
            any-overwritten id e.id retired_row a.now db.endpoints ∙ find-any _ db.endpoints row;
        all_retired = overwritten-retired id a.now retired_row db.endpoints refl same;
      } in
    subst (IsRetired id) (ground (arith, k3, k4)) kept

-- The pipeline finds an endpoint only in a row of the table with its status.
managed_of-row :
    (a : Access) (app : ℕ) (method path version : Text) (rows : List EndpointRow) {m : Managed}
    → managed_of (get_by_method_path a app method path version rows) ≡ some m
    → (e : EndpointRow) × (find (has_route app method path version) rows ≡ some e)
      × (e.id ≡ m.id)
      × (status_eq e.status EndpointStatus.active ≡ m.active)
unfolding get_by_method_path ◌>>=◌
managed_of-row a app method path version rows {m} h =
    elim (Option-cases (find (has_route app method path version) rows)) [
      | inl f ↦ ground (arith, h, f)
      | inr (e, f) ↦ (e, f, ground (arith, h, f), ground (arith, h, f))
    ]

retired-active :
    (s : EndpointStatus) → s ≡ EndpointStatus.retired → status_eq s EndpointStatus.active ≡ false
retired-active s h = ap (λ t. status_eq t EndpointStatus.active) h

-- After a call of retire that succeeds, and any further calls of the management but for the
-- activation of that endpoint, the pipeline over the tables routes no request to it: not with any
-- method, app, path or user, and not when a read fails. The calls come one after the other.
pub retire_endpoint-routed :
    (a : Access) (id : ℕ) (db db' : ManagementDb) (events : List ManagementEvent)
    (cs : List ManagementCall) (uuids : Uuids) (b c : Access) (method : Text) (p : Policies)
    (r : EndpointCall)
    → retire_endpoint a id db ≡ ok (tt, db', events)
    → All (IsNotActivation id) cs
    → enforce uuids (over_tables b c method (run_calls cs db') p) r ≢ routed id
unfolding over_tables
retire_endpoint-routed a id db db' events cs uuids b c method p r k w h =
    let gone = run_calls-IsRetired id cs db' w (retire_endpoint-IsRetired a id db db' k) in
    let (app, m, parsed, found, is_active, same, _) =
      enforce-routed uuids (over_tables b c method (run_calls cs db') p) r h in
    let (e, row, named_id, named_status) =
      managed_of-row b app method (lookup_path r.path) (codes "v1") (run_calls cs db').endpoints
        found in
    let status =
      find-All _ _ (run_calls cs db').endpoints gone.all_retired row
        (ground (arith, named_id, same)) in
    cc (retired-active e.status status, named_status, is_active)
