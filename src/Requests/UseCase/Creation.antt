-- ===== src/Requests/UseCase/Creation.antt =====
-- request.go: Create and ListOwned, with the identity, the note and the amount that they check.
use nim_near.Prelude.{
  ℕ, ℤ, pos, negsuc, ◌+◌, Bool, not, ◌&&◌, ◌||◌, Option, none, some, List, [], ◌∷◌, ◌++◌, reverse,
  ltb, leb, ◌==◌, if◌then◌else◌, any, length, is_empty, Text, trim_space, text_eq, Result, ok, err,
  plain, coded, unauthorized, internal, bad_request, not_found, forbidden, validation,
  note_too_long, invalid_note, invalid_wallet_address, wallet_identity_forbidden,
  no_verified_nimiq_identity, require, or_fail, find, ◌>>=◌, ◌>>◌,
}
use nim_near.Store.{Db, Answers, Time, Request, RequestStatus}
use nim_near.Realtime.{StatusChanged}
use nim_near.Money.Amounts.{parse_amount_lunas}
use nim_near.Nimiq.Address.{compact_address, normalize_user_friendly_address}
use nim_near.Requests.Rows.{list_by_creator}
use nim_near.Requests.Rows as Repo
use nim_near.Requests.UseCase.Setup.{RequestUseCase}
use nim_near.Requests.UseCase.Reconcile.{Run}
use nim_near.Requests.UseCase.Commands.{Response, refuse, respond, maybe_verify}

-- A note is the list of its code points. unicode.IsSpace and unicode.IsControl:
abbrev pub is_space_rune : ℕ → Bool
is_space_rune c =
    (leb 9 c && leb c 13)
    || c == 32
    || c == 133
    || c == 160
    || c == 5760
    || (leb 8192 c && leb c 8202)
    || c == 8232
    || c == 8233
    || c == 8239
    || c == 8287
    || c == 12288

abbrev pub is_control : ℕ → Bool
is_control c = ltb c 32 || (leb 127 c && leb c 159)

unfoldable pub trim_left_runes : Text → Text
trim_left_runes [] = []
trim_left_runes (c ∷ s) = if is_space_rune c then trim_left_runes s else c ∷ s

unfoldable pub trim_runes : Text → Text
trim_runes s = reverse (trim_left_runes (reverse (trim_left_runes s)))

abbrev pub max_note_length : ℕ
max_note_length = 140

unfoldable pub normalize_note : Text → Result (Option Text)
normalize_note raw = if is_empty (trim_runes raw) then ok none else (do
  require (leb (length (trim_runes raw)) max_note_length) (coded validation note_too_long)
  require (not (any is_control (trim_runes raw))) (coded validation invalid_note)
  ok (some (trim_runes raw)))

-- verifiedAddresses, which fails for a user without any.
unfoldable pub verified_addresses : Option (ℕ → Option (List Text)) → ℕ → Result (List Text)
verified_addresses none user = err (coded not_found no_verified_nimiq_identity)
verified_addresses (some resolver) user = or_fail (resolver user) (plain internal)

abbrev pub same_wallet : Text → Text → Bool
same_wallet a b = text_eq (compact_address b) (compact_address a)

-- The identity that a request asks for.
unfoldable pub find_wallet : Text → List Text → Result Text
find_wallet requested addresses = do
  normalized ←
      or_fail (normalize_user_friendly_address requested) (coded bad_request invalid_wallet_address)
  or_fail (find (same_wallet normalized) addresses) (coded forbidden wallet_identity_forbidden)

unfoldable pub choose_identity : Text → List Text → Result Text
choose_identity requested [] = err (coded not_found no_verified_nimiq_identity)
choose_identity requested (a ∷ addresses) =
    if is_empty (trim_space requested) then ok a else find_wallet requested (a ∷ addresses)

unfoldable pub resolve_owned_identity : Option (ℕ → Option (List Text)) → ℕ → Text → Result Text
resolve_owned_identity identities user requested =
    verified_addresses identities user >>= choose_identity requested

-- dto.CreateRequest
pub record CreateRequest : Type 0 where
  pub address : Text
  pub amount_nim : Text
  pub note : Text

-- The request that Create hands to the repository, or the error before it. The ids are uuid.New().
unfoldable pub build_request : RequestUseCase → ℕ → ℕ → Time → ℕ → CreateRequest → Result Request
build_request uc id public_id now creator input = do
  require (not (creator == 0)) (plain unauthorized)
  recipient ← resolve_owned_identity uc.identities creator input.address
  amount ← parse_amount_lunas input.amount_nim
  note ← normalize_note input.note
  ok (record {
    id = id;
    public_id = public_id;
    creator_user_id = creator;
    recipient_address = recipient;
    amount_lunas = amount;
    note = note;
    status = RequestStatus.pending;
    expires_at = now + uc.ttl;
    cancelled_at = none;
    paid_at = none;
    payer_user_id = none;
    transaction_hash = none;
    reconciliation_deadline_at = none;
    last_verification_attempt_at = none;
    verification_claimed_until = none;
    created_at = now;
    updated_at = now;
  })

unfoldable pub insert_built : Answers → Result Request → Db → Response
insert_built up (err e) db = refuse e db
insert_built up (ok request) db = respond (Repo.create up request db)

unfoldable pub create : RequestUseCase → Answers → ℕ → ℕ → Time → ℕ → CreateRequest → Db → Response
create uc up id public_id now creator input db =
    insert_built up (build_request uc id public_id now creator input) db

-- `limit == 0` is the default, and other limits are from 1 to 100.
unfoldable pub list_limit : ℤ → Result ℕ
list_limit (negsuc n) = err (plain bad_request)
list_limit (pos n) = if n == 0 then ok 20 else (require (leb n 100) (plain bad_request) >> ok n)

pub record ListResponse : Type 0 where
  pub result : Result (List Request)
  pub db : Db
  pub events : List StatusChanged

-- The loop of ListOwned: one attempt of verification for each request, in order. `runs` are the
-- clocks and the answers of the attempts.
unfoldable pub verify_each :
    RequestUseCase → (ℕ → Run) → ℕ → List Request → Db → List Request × Db × List StatusChanged
verify_each uc runs k [] db = ([], db, [])
verify_each uc runs k (r ∷ rs) db =
    let (row, db', sent) = maybe_verify uc (runs k) r db in
    let (rows, last, more) = verify_each uc runs (k + 1) rs db' in (row ∷ rows, last, sent ++ more)

unfoldable pub read_list : RequestUseCase → (ℕ → Run) → Result (List Request) × Db → ListResponse
read_list uc runs (err e, db) = record { result = err e; db = db; events = [] }
read_list uc runs (ok rs, db) =
    let (rows, last, sent) = verify_each uc runs 0 rs db in
    record { result = ok rows; db = last; events = sent }

unfoldable pub list_owned : RequestUseCase → Answers → (ℕ → Run) → Time → ℕ → ℤ → Db → ListResponse
list_owned uc up runs now creator limit db =
    elim (require (not (creator == 0)) (plain unauthorized) >> list_limit limit) [
      | err e ↦ record { result = err e; db = db; events = [] }
      | ok n ↦ read_list uc runs (list_by_creator up creator now n db)
    ]
