-- ===== src/Tests/Created.antt =====
-- A payment request and an event that are created, and an event that is updated.
use nim_near.Prelude.{
  ℕ, ◌≡◌, refl, true, false, none, some, [], ◌∷◌, ok, err, plain, internal, pos, codes, any, find,
  text_eq, trim_space, trim_left, to_upper, remove_spaces, update_where, ◌>>=◌, ◌+◌,
}
use nim_near.Store.{Answers, Db, EventRow, Request, RequestStatus, row_allowed}
use nim_near.Purchases.Create.{active_attendees}
use nim_near.Purchases.Rows.{
  count_distinct, participant_ids, buyer_ids, effective_attendees, contains,
}
use nim_near.Money.Decimal.{value}
use nim_near.Money.Amounts.{
  parse_amount_lunas, parse_price_lunas, parse_total, split_point, all_digits,
}
use nim_near.Nimiq.Address.{
  normalize_user_friendly_address, is_address, compact_address, all_in_alphabet, in_alphabet,
  iban_mod97, iban_from, format_groups,
}
use nim_near.Events.UseCase.Build.{check_capacity, validate_coordinates}
use nim_near.Events.UseCase.Media.{valid_media_url}
use nim_near.Requests.Rows.{set_requests}
use nim_near.Requests.Rows as Rows
use nim_near.Requests.UseCase.Setup.{RequestUseCase}
use nim_near.Requests.UseCase.Creation.{
  CreateRequest, create, insert_built, build_request, resolve_owned_identity, verified_addresses,
  choose_identity, find_wallet, normalize_note, trim_runes, trim_left_runes,
}
use nim_near.Requests.UseCase.Created.{IsRequested, create-IsRequested}
use nim_near.Events.Lifecycle.{
  Patch, update_owned, update_owned_tx, check_occupancy, check_place, read_back,
}
use nim_near.Events.Lifecycle as Repo
use nim_near.Events.UseCase.Build.{EventUseCase, CreateEventRequest, build_event}
use nim_near.Events.Updated.{IsUpdated, update_owned-IsUpdated}
use nim_near.Tests.Payments.{up, a_db, an_event}
use nim_near.Tests.UseCases.{request_use_case}
use nim_near.Tests.Money.{loose_address, official}

abbrev wallet_use_case : RequestUseCase
wallet_use_case = record request_use_case { identities = some (λ _. some (official ∷ [])) }

abbrev an_input : CreateRequest
an_input = record { address = loose_address; amount_nim = codes " 0.00001"; note = codes " Tea " }

abbrev a_new_request : Request
a_new_request = record {
  id = 9;
  public_id = 90;
  creator_user_id = 1;
  recipient_address = official;
  amount_lunas = 1;
  note = some (codes "Tea");
  status = RequestStatus.pending;
  expires_at = 10 + wallet_use_case.ttl;
  cancelled_at = none;
  paid_at = none;
  payer_user_id = none;
  transaction_hash = none;
  reconciliation_deadline_at = none;
  last_verification_attempt_at = none;
  verification_claimed_until = none;
  created_at = 10;
  updated_at = 10;
}

creation : (create wallet_use_case up 9 90 10 1 an_input a_db).result ≡ ok a_new_request
unfolding create insert_built build_request ◌>>=◌ resolve_owned_identity verified_addresses
    choose_identity trim_space trim_left find_wallet normalize_user_friendly_address is_address
    compact_address all_in_alphabet in_alphabet iban_mod97 iban_from any to_upper remove_spaces
    format_groups text_eq find parse_amount_lunas parse_total split_point all_digits value
    normalize_note trim_runes trim_left_runes Rows.create
creation = refl

create-IsRequested_example :
    IsRequested wallet_use_case 1 10 an_input a_new_request
    × ((create wallet_use_case up 9 90 10 1 an_input a_db).db
        ≡ set_requests a_db (a_new_request ∷ a_db.requests))
create-IsRequested_example =
    create-IsRequested wallet_use_case up 9 90 10 1 an_input a_new_request a_db creation

-- No event below has coordinates.
abbrev event_use_case : EventUseCase Answers
event_use_case = record {
  places = none;
  calendars = none;
  parse_url = λ _. none;
  is_latitude = λ _. true;
  is_longitude = λ _. true;
}

abbrev new_event : EventRow
new_event = record an_event {
  id = 5;
  starts_at = 100;
  ends_at = 200;
  price_lunas = 150000;
  capacity = none;
  created_at = 10;
  updated_at = 10;
}

abbrev event_input : CreateEventRequest Answers
event_input = record {
  title = codes " Meetup";
  description = [];
  starts_at = 100;
  ends_at = 200;
  price_nim = codes "1.5";
  currency = [];
  capacity = none;
  image_url = [];
  calendar_id = none;
  place_id = none;
  latitude = none;
  longitude = none;
  address = none;
  city = codes "Izmir";
}

-- A capacity that no INTEGER holds is accepted, and the INSERT fails.
abbrev too_many : ℕ
too_many = 3000000000

built_too_many :
    build_event event_use_case 5 10 1 (record event_input { capacity = some (pos too_many) })
    ≡ ok (record new_event { capacity = some too_many })
unfolding build_event ◌>>=◌ trim_space trim_left parse_price_lunas parse_total split_point
    all_digits value check_capacity validate_coordinates valid_media_url
built_too_many = refl

insert_too_many :
    Repo.create true (record new_event { capacity = some too_many }) a_db ≡ err (plain internal)
unfolding Repo.create any row_allowed ◌>>=◌
insert_too_many = refl

abbrev a_patch : Patch
a_patch = record {
  title = some (codes "Late meetup");
  description = none;
  starts_at = some 4500;
  ends_at = none;
  image_url = none;
  capacity = some (some 3);
  place_id = none;
}

abbrev updated_event : EventRow
updated_event = record an_event {
  title = codes "Late meetup";
  starts_at = 4500;
  capacity = some 3;
  updated_at = 20;
}

abbrev updated_db : Db
updated_db = record a_db { events = updated_event ∷ [] }

update :
    update_owned up 3 1 a_patch 20 20 a_db
    ≡ (ok (record { row = updated_event; sold_out = false }), updated_db)
unfolding update_owned update_owned_tx ◌>>=◌ find check_occupancy active_attendees count_distinct
    participant_ids buyer_ids check_place row_allowed read_back effective_attendees update_where
    contains
update = refl

update_owned-IsUpdated_example : IsUpdated 3 1 a_patch 20 a_db updated_db
update_owned-IsUpdated_example =
    update_owned-IsUpdated up 3 1 a_patch 20 20 a_db updated_db
      (record { row = updated_event; sold_out = false }) update
