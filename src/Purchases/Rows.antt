-- ===== src/Purchases/Rows.antt =====
-- purchase_repository.go: the predicates of its SQL, GetOwned, GetActiveForEvent and
-- syncEventAttendeeCount.
use nim_near.Prelude.{
  ℕ, suc, Bool, false, ◌&&◌, ◌||◌, Option, none, some, List, [], ◌∷◌, ◌++◌, leb, ◌==◌,
  if◌then◌else◌, exists, Result, ok, err, plain, internal, not_found, require, or_fail, ◌>>=◌, ◌>>◌,
  find, select, update_where, sort_by,
}
use nim_near.Store.{
  Db, Answers, Time, Participant, EventRow, Purchase, PurchaseStatus, purchase_is_pending,
  purchase_is_active, purchase_status_eq, row_allowed,
}

abbrev pub set_purchases : Db → List Purchase → Db
set_purchases db rows = record db { purchases = rows }

-- id = $1 AND user_id = $2
abbrev pub owned : ℕ → ℕ → Purchase → Bool
owned id user p = p.id == id && p.user_id == user

-- event_id = $1 AND user_id = $2 AND status IN (the active ones)
abbrev pub active_for : ℕ → ℕ → Purchase → Bool
active_for event user p = p.event_id == event && p.user_id == user && purchase_is_active p.status

-- capacity_hold_expires_at IS NOT NULL AND capacity_hold_expires_at <= now
abbrev pub hold_lapsed : Time → Purchase → Bool
hold_lapsed now p = exists (λ t. leb t now) p.capacity_hold_expires_at

abbrev pub expire : Time → Purchase → Purchase
expire now p = record p { status = PurchaseStatus.expired; updated_at = now }

-- ORDER BY created_at DESC
abbrev pub newest_first : Purchase → Purchase → Bool
newest_first a b = leb b.created_at a.created_at

-- LIMIT 1
abbrev pub first {ℓ} : {A : Type ℓ} → List A → Option A
first [] = none
first (x ∷ xs) = some x

abbrev pub active_purchase : ℕ → ℕ → List Purchase → Option Purchase
active_purchase event user rows = first (sort_by newest_first (select (active_for event user) rows))

unfoldable pub get_owned : Bool → ℕ → ℕ → Db → Result Purchase
get_owned up id user db =
    require up (plain internal) >> or_fail (find (owned id user) db.purchases) (plain not_found)

-- event_id = $1 AND user_id = $2 AND status = 'pending' AND the hold has lapsed
abbrev pub own_hold_lapsed : ℕ → ℕ → Time → Purchase → Bool
own_hold_lapsed event user now p =
    p.event_id == event && p.user_id == user && purchase_is_pending p.status && hold_lapsed now p

-- `now` is NOW(), the clock of the database.
unfoldable pub get_active_for_event : Answers → ℕ → ℕ → Time → Db → Result Purchase × Db
get_active_for_event up event user now db =
    if up 0
    then (let db' =
          set_purchases db
            (update_where (own_hold_lapsed event user now) (expire now) db.purchases) in
        (
          (require (up 1) (plain internal)
              >> or_fail (active_purchase event user db'.purchases) (plain not_found)),
          db',
        ))
    else (err (plain internal), db)

-- SELECT … UNION …: the user ids of several sources, each once.
unfoldable pub contains : ℕ → List ℕ → Bool
contains u [] = false
contains u (v ∷ vs) = u == v || contains u vs

unfoldable pub count_distinct : List ℕ → ℕ
unfolding contains
count_distinct [] = 0
count_distinct (u ∷ us) = let rest = count_distinct us in if contains u us then rest else suc rest

unfoldable pub participant_ids : ℕ → List Participant → List ℕ
participant_ids event [] = []
participant_ids event (p ∷ ps) =
    let rest = participant_ids event ps in if p.event_id == event then p.user_id ∷ rest else rest

-- SELECT user_id FROM event_purchases WHERE p
unfoldable pub buyer_ids : (Purchase → Bool) → List Purchase → List ℕ
buyer_ids p [] = []
buyer_ids p (x ∷ xs) = let rest = buyer_ids p xs in if p x then x.user_id ∷ rest else rest

abbrev pub confirmed_for : ℕ → Purchase → Bool
confirmed_for event p = p.event_id == event && purchase_status_eq p.status PurchaseStatus.confirmed

unfoldable pub effective_attendees : ℕ → Db → ℕ
unfolding participant_ids buyer_ids count_distinct
effective_attendees event db =
    count_distinct
      (participant_ids event db.participants ++ buyer_ids (confirmed_for event) db.purchases)

abbrev pub event_by_id : ℕ → EventRow → Bool
event_by_id event e = e.id == event

-- The SET of the statement. `clock` is NOW().
abbrev pub counted : ℕ → Time → EventRow → EventRow
counted n clock e = record e { attendee_count = n; updated_at = clock }

-- An UPDATE that finds no event, or that the constraints of the table refuse, is an error.
unfoldable pub sync_event_attendee_count : Bool → ℕ → Time → Db → Result (ℕ × Db)
sync_event_attendee_count up event clock db = do
  require up (plain internal)
  row ← or_fail (find (event_by_id event) db.events) (plain internal)
  require (row_allowed (counted (effective_attendees event db) clock row)) (plain internal)
  ok (
    effective_attendees event db,
    record db {
      events =
          update_where (event_by_id event) (counted (effective_attendees event db) clock) db.events;
    },
  )
