-- ===== src/Events/UseCase/Build.antt =====
-- events.go: the checks of Create, and buildEvent. The coordinates are float64: of F, the type of
-- such numbers, the code needs the two tests of their range.
use nim_near.Prelude.{
  ℕ, ℤ, Bool, true, not, ◌&&◌, ◌||◌, Option, none, some, ltb, leb, ◌==◌, if◌then◌else◌, is_none,
  exists, is_empty, length, Text, codes, trim_space, to_upper, Result, ok, err, plain, internal,
  not_found, forbidden, validation, require, ◌>>=◌, ◌>>◌, positive_part,
}
use nim_near.Store.{Time, EventRow, EventStatus}
use nim_near.Money.Amounts.{parse_price_lunas}
use nim_near.Events.UseCase.Media.{Url, valid_media_url}

-- What the code reads of a calendar.
pub record Calendar : Type 0 where
  pub owner_id : ℕ
  pub is_active : Bool

-- The fields of EventUseCase that are not its event repository, and what it calls in other
-- packages. A place is found or not; a repository that is not configured is `none`.
pub record EventUseCase (F : Type 0) : Type 0 where
  pub places : Option (ℕ → Result Bool)
  pub calendars : Option (ℕ → Result (Option Calendar))
  pub parse_url : Text → Option Url
  pub is_latitude : F → Bool
  pub is_longitude : F → Bool

-- dto.CreateEventRequest
pub record CreateEventRequest (F : Type 0) : Type 0 where
  pub title : Text
  pub description : Text
  pub starts_at : Time
  pub ends_at : Time
  pub price_nim : Text
  pub currency : Text
  pub capacity : Option ℤ
  pub image_url : Text
  pub calendar_id : Option ℕ
  pub place_id : Option ℕ
  pub latitude : Option F
  pub longitude : Option F
  pub address : Option Text
  pub city : Text

-- The lookup of the place, which Create and Update share.
unfoldable pub require_place : Option (ℕ → Result Bool) → Option ℕ → Result (Unit {0})
require_place places none = ok tt
require_place none (some p) = err (plain internal)
require_place (some get) (some p) = get p >>= (λ found. require found (plain not_found))

abbrev pub owns : ℕ → Calendar → Bool
owns organizer c = c.owner_id == organizer && c.is_active

unfoldable pub require_calendar :
    Option (ℕ → Result (Option Calendar)) → ℕ → Option ℕ → Result (Unit {0})
require_calendar calendars organizer none = ok tt
require_calendar none organizer (some c) = err (plain internal)
require_calendar (some get) organizer (some c) =
    get c >>= (λ found. require (exists (owns organizer) found) (plain forbidden))

module _ {F : Type 0} where
  -- An event at a place has no location of its own.
  abbrev pub has_location : CreateEventRequest F → Bool
  has_location r = not (is_none r.address) || not (is_none r.latitude) || not (is_none r.longitude)

  -- `if uc.placeRepo == nil` comes before the test of the location.
  unfoldable pub check_location :
      Option (ℕ → Result Bool) → CreateEventRequest F → Result (Unit {0})
  check_location places r =
      if is_none r.place_id
      then ok tt
      else (require (not (is_none places)) (plain internal)
          >> require (not (has_location r)) (plain validation))

  unfoldable pub validate_associations :
      EventUseCase F → ℕ → CreateEventRequest F → Result (Unit {0})
  validate_associations uc organizer r =
      check_location uc.places r
      >> require_place uc.places r.place_id
      >> require_calendar uc.calendars organizer r.calendar_id

  unfoldable pub validate_coordinates : EventUseCase F → Option F → Option F → Result (Unit {0})
  validate_coordinates uc none none = ok tt
  validate_coordinates uc (some latitude) none = err (plain validation)
  validate_coordinates uc none (some longitude) = err (plain validation)
  validate_coordinates uc (some latitude) (some longitude) =
      require (uc.is_latitude latitude) (plain validation)
      >> require (uc.is_longitude longitude) (plain validation)

-- `capacity != nil && *capacity < 1` is an error.
unfoldable pub check_capacity : Option ℤ → Result (Option ℕ)
check_capacity none = ok none
check_capacity (some c) =
    if positive_part c == 0 then err (plain validation) else ok (some (positive_part c))

-- ToUpper and TrimSpace, and the default NIM.
abbrev pub normalize_currency : Text → Text
normalize_currency raw =
    if is_empty (trim_space raw) then codes "NIM" else to_upper (trim_space raw)

-- Time.IsZero is the time 0.
unfoldable pub build_event :
    {F : Type 0} → EventUseCase F → ℕ → Time → ℕ → CreateEventRequest F → Result EventRow
build_event uc id now organizer r = do
  require (not (is_empty (trim_space r.title)) && leb (length (trim_space r.title)) 255)
      (plain validation)
  require (leb (length r.description) 5000) (plain validation)
  require (not (r.starts_at == 0 || r.ends_at == 0)) (plain validation)
  require (ltb r.starts_at r.ends_at) (plain validation)
  price ← parse_price_lunas r.price_nim
  require (leb (length (normalize_currency r.currency)) 16) (plain validation)
  capacity ← check_capacity r.capacity
  validate_coordinates uc r.latitude r.longitude
  require (not (is_empty (trim_space r.city)) && leb (length (trim_space r.city)) 120)
      (plain validation)
  require (is_none r.address || exists (λ a. leb (length a) 500) r.address) (plain validation)
  require (valid_media_url uc.parse_url r.image_url) (plain validation)
  ok (record {
    id = id;
    title = trim_space r.title;
    description = r.description;
    starts_at = r.starts_at;
    ends_at = r.ends_at;
    status = EventStatus.published;
    price_lunas = price;
    currency = normalize_currency r.currency;
    capacity = capacity;
    attendee_count = 0;
    image_url = r.image_url;
    calendar_id = r.calendar_id;
    place_id = r.place_id;
    address = r.address;
    city = trim_space r.city;
    organizer_id = some organizer;
    is_public = true;
    created_at = now;
    updated_at = now;
  })
