-- ===== src/Requests/UseCase/Created.antt =====
-- What a payment request is when Create has made it.
use nim_near.Prelude.{
  ℕ, ◌+◌, ◌≡◌, ◌≤◌, ◌<◌, ◌∙◌, refl, sym, ap, subst, inl, inr, Bool, false, Option, none, some, List,
  [], ◌∷◌, arith, any, length, is_empty, Text, trim_space, text_eq_sound, Result, ok, err, find,
  find-holds, Some, Bool-cases, bind-eq-ok, or_fail-eq-ok, ◌>>=◌,
}
use nim_near.Store.{Db, Answers, Time, Request, RequestStatus}
use nim_near.Store.Yields.{Yields, Yields-bind, transact-Yields}
use nim_near.Money.Amounts.{max_int64, parse_amount_lunas}
use nim_near.Money.RoundTrip.{parse_amount_lunas_bounds}
use nim_near.Nimiq.Address.{compact_address}
use nim_near.Nimiq.Normal.{normalize_user_friendly_address_idem}
use nim_near.Requests.Rows.{inserted, set_requests}
use nim_near.Requests.Rows as Repo
use nim_near.Requests.UseCase.Setup.{RequestUseCase}
use nim_near.Requests.UseCase.Creation.{
  CreateRequest, max_note_length, is_control, normalize_note, verified_addresses, same_wallet,
  find_wallet, choose_identity, resolve_owned_identity, build_request, insert_built, create,
}

-- The address that was chosen is one of the list, and it is the wallet that was asked for, if any
-- was.
pub record IsChosen (requested : Text) (addresses : List Text) (chosen : Text) : Type 0 where
  pub listed : Some (λ a. a ≡ chosen) addresses
  pub asked :
      is_empty (trim_space requested) ≡ false → compact_address chosen ≡ compact_address requested

find-Some :
    (p : Text → Bool) (xs : List Text) {a : Text} → find p xs ≡ some a → Some (λ x. x ≡ a) xs
unfolding find
find-Some p [] h = cc
find-Some p (x ∷ xs) {a} h = elim (Bool-cases (p x)) [
  | inl e ↦ inl (ground (arith, e, h))
  | inr e ↦ inr (find-Some p xs {a = a} (ground (arith, e, h)))
]

find_wallet-IsChosen :
    (requested : Text) (addresses : List Text) (chosen : Text)
    → find_wallet requested addresses ≡ ok chosen
    → IsChosen requested addresses chosen
unfolding find_wallet
find_wallet-IsChosen requested addresses chosen h =
    let (n, m, k) = bind-eq-ok _ _ h in
    let found = or_fail-eq-ok _ _ k in
    record {
      listed = find-Some (same_wallet n) addresses found;
      asked = λ _.
          text_eq_sound _ _ (find-holds (same_wallet n) addresses found)
          ∙ (normalize_user_friendly_address_idem requested n (or_fail-eq-ok _ _ m)).0;
    }

choose_identity-IsChosen :
    (requested : Text) (addresses : List Text) (chosen : Text)
    → choose_identity requested addresses ≡ ok chosen
    → IsChosen requested addresses chosen
unfolding choose_identity
choose_identity-IsChosen requested [] chosen h = cc
choose_identity-IsChosen requested (a ∷ addresses) chosen h =
    elim (Bool-cases (is_empty (trim_space requested))) [
      | inl e ↦ record { listed = inl (ground (arith, e, h)); asked = λ k. cc }
      | inr e ↦ find_wallet-IsChosen requested (a ∷ addresses) chosen (ground (arith, e, h))
    ]

-- A note that is kept is short, and has no control character.
abbrev pub IsNote : Option Text → Type 0
IsNote none = Unit
IsNote (some s) = (length s ≤ max_note_length) × (any is_control s ≡ false)

normalize_note-IsNote : (raw : Text) (o : Option Text) → normalize_note raw ≡ ok o → IsNote o
unfolding normalize_note ◌>>=◌
normalize_note-IsNote raw none h = tt
normalize_note-IsNote raw (some s) h = (ground (arith, h), ground (arith, h))

-- What Create stores and answers.
pub record IsRequested (uc : RequestUseCase) (creator : ℕ) (now : Time) (input : CreateRequest)
    (r : Request) : Type 0 where
  pub addresses : List Text
  pub verified : verified_addresses uc.identities creator ≡ ok addresses
  pub recipient : IsChosen input.address addresses r.recipient_address
  pub positive : 0 < r.amount_lunas
  pub fits : r.amount_lunas ≤ max_int64
  pub parsed : parse_amount_lunas input.amount_nim ≡ ok r.amount_lunas
  pub note : IsNote r.note
  pub same_creator : r.creator_user_id ≡ creator
  pub is_new : r.status ≡ RequestStatus.pending
  pub expires : r.expires_at ≡ now + uc.ttl
  pub unpaid : r.transaction_hash ≡ none

ok_injective : {r s : Request} → ok r ≡ ok s → r ≡ s
ok_injective h = cc

build_request-IsRequested :
    (uc : RequestUseCase) (id public_id : ℕ) (now : Time) (creator : ℕ) (input : CreateRequest)
    (r : Request)
    → build_request uc id public_id now creator input ≡ ok r
    → IsRequested uc creator now input r × (inserted r ≡ r)
unfolding build_request resolve_owned_identity
build_request-IsRequested uc id public_id now creator input r h =
    let (_, _, h1) = bind-eq-ok _ _ h in
    let (recipient, chosen, h2) = bind-eq-ok _ _ h1 in
    let (amount, parsed, h3) = bind-eq-ok _ _ h2 in
    let (note, noted, h4) = bind-eq-ok _ _ h3 in
    let (addresses, verified, h5) = bind-eq-ok _ _ chosen in
    let bounds = parse_amount_lunas_bounds input.amount_nim amount parsed in
    subst (λ q. IsRequested uc creator now input q × (inserted q ≡ q)) (ok_injective h4)
      (
        record {
          addresses = addresses;
          verified = verified;
          recipient = choose_identity-IsChosen input.address addresses recipient h5;
          positive = bounds.0;
          fits = bounds.1;
          parsed = parsed;
          note = normalize_note-IsNote input.note note noted;
          same_creator = refl;
          is_new = refl;
          expires = refl;
          unpaid = refl;
        },
        refl,
      )

abbrev Stored : Request → Db → Request → Db → Type 0
Stored request db r db' = (r ≡ inserted request) × (db' ≡ set_requests db (r ∷ db.requests))

stored :
    (up : Answers) (request r : Request) (db db' : Db)
    → Repo.create up request db ≡ (ok r, db')
    → Stored request db r db'
unfolding Repo.create
stored up request r db db' h =
    transact-Yields (Stored request db) db db' _ r
      (Yields-bind (Stored request db) _ _ λ _ _.
        Yields-bind (Stored request db) _ _
          λ _ _. Yields-bind (Stored request db) _ _ λ _ _. Yields.done _ _ (refl, refl))
      h

insert_built-Stored :
    (up : Answers) (m : Result Request) (r : Request) (db : Db)
    → (insert_built up m db).result ≡ ok r
    → (request : Request) × (m ≡ ok request) × Stored request db r (insert_built up m db).db
unfolding insert_built
insert_built-Stored up (err e) r db h = cc
insert_built-Stored up (ok request) r db h = (
  request,
  refl,
  stored up request r db (Repo.create up request db).1
      (ap (λ (x : Result Request). (x, (Repo.create up request db).1)) h),
)

-- When Create succeeds, the request that it answers with is the one row that it adds to the table.
-- It is the creator's, pending and unpaid, and it expires one lifetime from now; its recipient is a
-- verified address of the creator, and the wallet that was asked for, if one was; its amount is the
-- amount that was written, positive and within an int64; its note has at most 140 characters and no
-- control character.
pub create-IsRequested :
    (uc : RequestUseCase) (up : Answers) (id public_id : ℕ) (now : Time) (creator : ℕ)
    (input : CreateRequest) (r : Request) (db : Db)
    → (create uc up id public_id now creator input db).result ≡ ok r
    → IsRequested uc creator now input r
      × ((create uc up id public_id now creator input db).db ≡ set_requests db (r ∷ db.requests))
unfolding create
create-IsRequested uc up id public_id now creator input r db h =
    let (request, built, (same, written)) =
      insert_built-Stored up (build_request uc id public_id now creator input) r db h in
    let (requested, fixed) =
      build_request-IsRequested uc id public_id now creator input request built in
    (subst (IsRequested uc creator now input) (sym (same ∙ fixed)) requested, written)
