-- ===== src/Store/EventTable.antt =====
-- backend/internal/domain/event/model/event.go: the columns of table events, less the coordinates,
-- and the CHECK constraints of 00014_create_events.sql.
use nim_near.Prelude.{ℕ, Bool, true, false, ◌&&◌, Option, none, some, Text, ltb, leb, length, ◌^◌}
use nim_near.Store.NimiqTx.{Time}

pub data EventStatus : Type 0 where
  draft published cancelled : EventStatus

pub record EventRow : Type 0 where
  pub id : ℕ
  pub title : Text
  pub description : Text
  pub starts_at : Time
  pub ends_at : Time
  pub status : EventStatus
  pub price_lunas : ℕ
  pub currency : Text
  pub capacity : Option ℕ
  pub attendee_count : ℕ
  pub image_url : Text
  pub calendar_id : Option ℕ
  pub place_id : Option ℕ
  pub address : Option Text
  pub city : Text
  pub organizer_id : Option ℕ
  pub is_public : Bool
  pub created_at : Time
  pub updated_at : Time

abbrev pub is_published : EventStatus → Bool
is_published EventStatus.published = true
is_published _ = false

abbrev pub is_cancelled : EventStatus → Bool
is_cancelled EventStatus.cancelled = true
is_cancelled _ = false

-- events_capacity_attendees, and capacity > 0.
abbrev pub capacity_allows : Option ℕ → ℕ → Bool
capacity_allows none n = true
capacity_allows (some c) n = ltb 0 c && leb n c

-- INTEGER
abbrev pub max_integer : ℕ
max_integer = 2147483647

abbrev pub integer_allows : Option ℕ → Bool
integer_allows none = true
integer_allows (some c) = leb c max_integer

-- The types of the columns: VARCHAR, on ASCII texts, INTEGER, and BIGINT for price_lunas
-- (00018_canonical_event_price_lunas.sql).
abbrev pub types_allow : EventRow → Bool
types_allow e =
    leb (length e.title) 255
    && leb (length e.currency) 16
    && leb (length e.city) 120
    && ltb e.price_lunas (2 ^ 63)
    && integer_allows e.capacity
    && leb e.attendee_count max_integer

-- An INSERT or UPDATE that leaves another row is refused.
unfoldable pub row_allowed : EventRow → Bool
row_allowed e =
    ltb e.starts_at e.ends_at && capacity_allows e.capacity e.attendee_count && types_allow e
