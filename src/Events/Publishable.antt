-- ===== src/Events/Publishable.antt =====
-- Create of events: what it builds, and that the table takes it.
use nim_near.Prelude.{ℕ, ◌≤◌, ◌<◌, ◌≡◌, true, false, some, is_empty, length, ok}
use nim_near.Store.{EventRow, EventStatus, row_allowed}
use nim_near.Money.Amounts.{parse_price_lunas}
use nim_near.Events.Lifecycle as Repo
use nim_near.Events.UseCase.Build.{CreateEventRequest}

-- What buildEvent promises of an event.
pub record IsPublishable {F : Type 0} (organizer : ℕ) (r : CreateEventRequest F) (e : EventRow)
    : Type 0 where
  pub titled : is_empty e.title ≡ false
  pub short_title : length e.title ≤ 255
  pub lasts : e.starts_at < e.ends_at
  pub price : parse_price_lunas r.price_nim ≡ ok e.price_lunas
  pub published : e.status ≡ EventStatus.published
  pub is_public : e.is_public ≡ true
  pub organizer_id : e.organizer_id ≡ some organizer
  pub nobody : e.attendee_count ≡ 0
  pub allowed : row_allowed e ≡ true
