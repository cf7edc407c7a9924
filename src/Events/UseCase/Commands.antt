-- ===== src/Events/UseCase/Commands.antt =====
-- The operations of EventUseCase and of ParticipationUseCase. Of an event, MapEvent computes the
-- price, the image and three tests; the other fields of the response are those of the row.
use nim_near.Prelude.{
  ℕ, ℤ, pos, negsuc, Bool, false, not, ◌&&◌, ◌||◌, Option, none, some, List, ltb, leb, ◌==◌,
  if◌then◌else◌, is_none, exists, is_empty, length, Text, trim_space, Result, ok, err, plain,
  bad_request, unauthorized, validation, require, ◌>>=◌, ◌>>◌,
}
use mathlib.Core.List.{map}
use nim_near.Store.{Db, Answers, Time, EventRow}
use nim_near.Money.Amounts.{format_price_nim}
use nim_near.Events.View.{Event, is_full, is_sold_out}
use nim_near.Events.Participation.{State}
use nim_near.Events.Participation as Participation
use nim_near.Events.Lifecycle.{Patch}
use nim_near.Events.Lifecycle as Repo
use nim_near.Events.Reads.{ListFilter, list_public, get_public_by_id}
use nim_near.Events.UseCase.Media.{valid_media_url}
use nim_near.Events.UseCase.Build.{
  EventUseCase, CreateEventRequest, require_place, validate_associations, build_event,
}

-- dto.EventInfo
pub record EventInfo : Type 0 where
  pub row : EventRow
  pub price_nim : Text
  pub image_url : Option Text
  pub is_free : Bool
  pub is_sold_out : Bool
  pub is_past : Bool

module _ {F : Type 0} (uc : EventUseCase F) where
  abbrev pub optional_media_url : Text → Option Text
  optional_media_url value =
      if not (valid_media_url uc.parse_url value) || is_empty value then none else some value

  unfoldable pub map_event : Event → Time → EventInfo
  map_event e now = record {
    row = e.row;
    price_nim = format_price_nim e.row.price_lunas;
    image_url = optional_media_url e.row.image_url;
    is_free = e.row.price_lunas == 0;
    is_sold_out = is_sold_out e;
    is_past = leb e.row.ends_at now;
  }

  abbrev pub answer : Time → Result Event × Db → Result EventInfo × Db
  answer now (err e, db) = (err e, db)
  answer now (ok event, db) = (ok (map_event event now), db)

  -- dto.ListEventsQuery, with a signed limit.
  unfoldable pub list_filter :
      Time → Text → Option ℕ → Option Time → Option Time → ℤ → Result ListFilter
  list_filter now city place from to (negsuc n) = err (plain bad_request)
  list_filter now city place from to (pos n) = do
    require (leb n 100) (plain bad_request)
    require (leb (length (trim_space city)) 120) (plain bad_request)
    require (not (exists (λ f. exists (λ t. ltb t f) to) from)) (plain bad_request)
    ok (record {
      city = trim_space city;
      place_id = place;
      from = if is_none from && is_none to then some now else from;
      to = to;
      limit = if n == 0 then 20 else n;
    })

  -- `clock` is NOW(), and `later` the second call of uc.now.
  unfoldable pub list_events :
      Bool
      → Time
      → Time
      → Time
      → Text
      → Option ℕ
      → Option Time
      → Option Time
      → ℤ
      → Db
      → Result (List EventInfo)
  list_events up now clock later city place from to limit db = do
    filter ← list_filter now city place from to limit
    events ← list_public up filter clock db
    ok (map (λ e. map_event e later) events)

  unfoldable pub get_event : Bool → ℕ → Time → Time → Db → Result EventInfo
  get_event up id clock now db = do
    require (not (id == 0)) (plain bad_request)
    event ← get_public_by_id up id clock db
    ok (map_event event now)

  unfoldable pub check_creation : ℕ → Time → ℕ → CreateEventRequest F → Result EventRow
  check_creation id now organizer r = do
    require (not (organizer == 0)) (plain unauthorized)
    validate_associations uc organizer r
    build_event uc id now organizer r

  -- The new event is answered as it was built.
  unfoldable pub create_event :
      Bool → ℕ → Time → Time → ℕ → CreateEventRequest F → Db → Result (EventInfo × Db)
  create_event up id now later organizer r db = do
    event ← check_creation id now organizer r
    db' ← Repo.create up event db
    ok (map_event (record { row = event; sold_out = false }) later, db')

  abbrev pub is_empty_patch : Patch → Bool
  is_empty_patch p =
      is_none p.title
      && is_none p.description
      && is_none p.starts_at
      && is_none p.ends_at
      && is_none p.image_url
      && is_none p.capacity
      && is_none p.place_id

  abbrev pub is_title : Text → Bool
  is_title t = not (is_empty (trim_space t)) && leb (length (trim_space t)) 255

  -- A test of a field that the patch sets.
  abbrev pub if_set {ℓ} : {A : Type ℓ} → Option A → (A → Bool) → Bool
  if_set o test = is_none o || exists test o

  abbrev pub trim_title : Patch → Patch
  trim_title p = record p { title = elim p.title [ none ↦ none | some t ↦ some (trim_space t) ] }

  abbrev pub new_place : Patch → Option ℕ
  new_place p = elim p.place_id [ none ↦ none | some o ↦ o ]

  -- The checks of Update. The patch has a capacity that is not negative: a negative one fails the
  -- same test as 0.
  unfoldable pub check_patch : ℕ → ℕ → Patch → Result (Unit {0})
  check_patch organizer event p = do
    require (not (organizer == 0)) (plain unauthorized)
    require (not (event == 0)) (plain bad_request)
    require (not (is_empty_patch p)) (plain validation)
    require (if_set p.title is_title) (plain validation)
    require (if_set p.description (λ d. leb (length d) 5000)) (plain validation)
    require (if_set p.image_url (valid_media_url uc.parse_url)) (plain validation)
    require (if_set p.capacity (λ o. if_set o (λ c. leb 1 c))) (plain validation)
    require (if_set p.starts_at (λ t. not (t == 0)) && if_set p.ends_at (λ t. not (t == 0)))
        (plain validation)
    require_place uc.places (new_place p)

  unfoldable pub update_event :
      Answers → Time → Time → Time → ℕ → ℕ → Patch → Db → Result EventInfo × Db
  update_event up now clock later organizer event p db = elim (check_patch organizer event p) [
    | err e ↦ (err e, db)
    | ok _ ↦ answer later (Repo.update_owned up event organizer (trim_title p) now clock db)
  ]

  -- Cancel of an organizer, and CancelByOperator, which is `none`.
  unfoldable pub cancel_event :
      Answers → Time → Time → Time → Option ℕ → ℕ → Db → Result EventInfo × Db
  cancel_event up now clock later organizer event db =
      if exists (λ o. o == 0) organizer
      then (err (plain unauthorized), db)
      else if event == 0
      then (err (plain bad_request), db)
      else answer later (Repo.cancel up event organizer now clock db)

-- participation.go: validateIDs.
unfoldable pub validate_ids : ℕ → ℕ → Result (Unit {0})
validate_ids event user =
    require (not (event == 0)) (plain bad_request) >> require (not (user == 0)) (plain unauthorized)

-- dto.ParticipationInfo, with State.IsSoldOut.
abbrev pub map_state : State → State
map_state s = record s { sold_out = s.sold_out || is_full s.capacity s.attendee_count }

abbrev pub answer_state : Result State × Db → Result State × Db
answer_state (err e, db) = (err e, db)
answer_state (ok s, db) = (ok (map_state s), db)

unfoldable pub rsvp : Answers → ℕ → ℕ → Time → Time → Db → Result State × Db
rsvp up event user now clock db = elim (validate_ids event user) [
  | err e ↦ (err e, db)
  | ok _ ↦ answer_state (Participation.rsvp up event user now clock db)
]

unfoldable pub cancel : Answers → ℕ → ℕ → Time → Db → Result State × Db
cancel up event user clock db = elim (validate_ids event user) [
  | err e ↦ (err e, db)
  | ok _ ↦ answer_state (Participation.cancel up event user clock db)
]

unfoldable pub get_state : Bool → ℕ → ℕ → Time → Db → Result State
get_state up event user clock db = do
  validate_ids event user
  s ← Participation.get_state up event user clock db
  ok (map_state s)
