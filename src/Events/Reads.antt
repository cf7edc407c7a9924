-- ===== src/Events/Reads.antt =====
-- event_repository.go: the lists of public events, and GetPublicByID. `clock` is NOW().
use mathlib.Core.List.{map}
use nim_near.Prelude.{
  ℕ, Bool, ◌&&◌, ◌||◌, Option, List, ltb, leb, ◌==◌, exists, is_none, is_empty, Text, to_lower,
  text_eq, Result, ok, plain, internal, not_found, require, or_fail, ◌>>=◌, ◌>>◌, find, any, select,
  take, sort_by,
}
use nim_near.Store.{
  Db, Time, EventRow, is_published, is_cancelled, Purchase, PurchaseStatus, purchase_status_eq,
}
use nim_near.Events.View.{Event, project}
use nim_near.Events.Participation.{is_attending}

-- repository.ListFilter
pub record ListFilter : Type 0 where
  pub city : Text
  pub place_id : Option ℕ
  pub from : Option Time
  pub to : Option Time
  pub limit : ℕ

-- is_public = TRUE AND status = 'published'
abbrev pub is_listed : EventRow → Bool
is_listed e = e.is_public && is_published e.status

-- A condition that the query has only where its filter is set.
abbrev pub if_set {ℓ} : {A : Type ℓ} → Option A → (A → Bool) → Bool
if_set o test = is_none o || exists test o

abbrev pub matches : ListFilter → EventRow → Bool
matches f e =
    is_listed e
    && (is_empty f.city || text_eq (to_lower e.city) (to_lower f.city))
    && if_set f.place_id (λ p. exists (λ q. q == p) e.place_id)
    && if_set f.from (λ t. leb t e.starts_at)
    && if_set f.to (λ t. leb e.starts_at t)

-- ORDER BY starts_at ASC, id ASC
abbrev pub chronological : EventRow → EventRow → Bool
chronological a b = ltb a.starts_at b.starts_at || (a.starts_at == b.starts_at && leb a.id b.id)

unfoldable pub list_where : Bool → (EventRow → Bool) → Time → Db → Result (List Event)
list_where up p clock db =
    require up (plain internal)
    >> ok (map (project clock db) (sort_by chronological (select p db.events)))

unfoldable pub list_public : Bool → ListFilter → Time → Db → Result (List Event)
list_public up f clock db =
    require up (plain internal)
    >> ok (
        map (project clock db)
          (take f.limit (sort_by chronological (select (matches f) db.events))))

abbrev pub organized_by : ℕ → EventRow → Bool
organized_by organizer e = exists (λ o. o == organizer) e.organizer_id && is_listed e

unfoldable pub list_public_by_organizer : Bool → ℕ → Time → Db → Result (List Event)
list_public_by_organizer up organizer = list_where up (organized_by organizer)

-- user_id = $1 AND status = 'confirmed', for the event
abbrev pub bought : ℕ → ℕ → Purchase → Bool
bought event user p =
    p.event_id == event && p.user_id == user && purchase_status_eq p.status PurchaseStatus.confirmed

-- The join with the UNION of the user's participations and confirmed purchases.
unfoldable pub attended_by : ℕ → Db → EventRow → Bool
attended_by user db e =
    (is_attending e.id user db || any (bought e.id user) db.purchases) && is_listed e

unfoldable pub list_public_by_attendee : Bool → ℕ → Time → Db → Result (List Event)
list_public_by_attendee up user clock db = list_where up (attended_by user db) clock db

abbrev pub in_calendar : ℕ → EventRow → Bool
in_calendar calendar e = exists (λ c. c == calendar) e.calendar_id && is_listed e

unfoldable pub list_public_by_calendar : Bool → ℕ → Time → Db → Result (List Event)
list_public_by_calendar up calendar = list_where up (in_calendar calendar)

-- id = $1 AND is_public = TRUE AND status IN ('published', 'cancelled')
abbrev pub is_public_event : ℕ → EventRow → Bool
is_public_event id e = e.id == id && e.is_public && (is_published e.status || is_cancelled e.status)

unfoldable pub get_public_by_id : Bool → ℕ → Time → Db → Result Event
get_public_by_id up id clock db = do
  require up (plain internal)
  row ← or_fail (find (is_public_event id) db.events) (plain not_found)
  ok (project clock db row)
