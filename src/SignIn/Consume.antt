-- ===== src/SignIn/Consume.antt =====
-- nimiq_auth_repository.go: NimiqAuthRepo.
use mathlib.Core.List.{map}
use nim_near.Prelude.{
  coalesce, ℕ, Bool, true, not, ◌&&◌, ◌||◌, Option, none, some, List, [], ◌∷◌, ltb, leb, ◌==◌,
  if◌then◌else◌, is_none, is_empty, any, find, select, sort_by, update_where, length, Text, text_eq,
  trim_space, Result, ok, plain, coded, internal, not_found, conflict, forbidden,
  challenge_not_found, challenge_already_used_or_expired, account_unavailable,
  nimiq_identity_key_mismatch, require, or_fail, ◌>>=◌, ◌>>◌,
}
use nim_near.Store.{Answers, Time}
use nim_near.Purchases.Rows.{first}
use nim_near.Requests.UseCase.Creation.{trim_runes, is_control}
use nim_near.SignIn.Tables.{Challenge, Identity, User, AuthDb, is_active, transact}

-- The primary key, and the unique nonce.
unfoldable pub create_challenge : Bool → Challenge → AuthDb → Result AuthDb
create_challenge up c db = do
  require up (plain internal)
  require (not (any (λ d. d.id == c.id || text_eq d.nonce c.nonce) db.challenges)) (plain internal)
  ok (record db { challenges = c ∷ db.challenges })

abbrev pub challenge_by_id : ℕ → Challenge → Bool
challenge_by_id id c = c.id == id

unfoldable pub get_challenge : Bool → ℕ → AuthDb → Result Challenge
get_challenge up id db =
    require up (plain internal)
    >> or_fail (find (challenge_by_id id) db.challenges) (coded not_found challenge_not_found)

-- id = $1 AND consumed_at IS NULL AND expires_at > $2
abbrev pub is_open : ℕ → Time → Challenge → Bool
is_open id now c = c.id == id && is_none c.consumed_at && ltb now c.expires_at

abbrev pub used : Time → Challenge → Challenge
used now c = record c { consumed_at = some now }

-- i.network = $1 AND i.address = $2
abbrev pub is_identity : Text → Text → Identity → Bool
is_identity network address i = text_eq i.network network && text_eq i.address address

abbrev pub user_by_id : ℕ → User → Bool
user_by_id id u = u.id == id

-- The join of an identity with its user.
unfoldable pub find_user : Text → Text → AuthDb → Option (Identity × User)
find_user network address db = elim (find (is_identity network address) db.identities) [
  | none ↦ none
  | some i ↦ elim (find (user_by_id i.user_id) db.users) [ none ↦ none | some u ↦ some (i, u) ]
]

-- scanNimiqUser
unfoldable pub scan_nimiq_user : Text → Identity × User → Result User
scan_nimiq_user key (i, u) = do
  require (is_none i.revoked_at && is_active u) (coded forbidden account_unavailable)
  require (text_eq i.public_key key) (coded conflict nimiq_identity_key_mismatch)
  ok u

-- SanitizeAccountLabel and DisplayNameForWallet of nimiq_auth.go. A label is the list of its code
-- points.
unfoldable pub sanitize_account_label : Text → Text
sanitize_account_label value =
    if leb (length (trim_runes value)) 100 && not (any is_control (trim_runes value))
    then trim_runes value
    else []

unfoldable pub display_name_for_wallet : Text → Text → Text
display_name_for_wallet address label =
    if is_empty (sanitize_account_label label) then address else sanitize_account_label label

-- NULLIF(BTRIM(COALESCE(name, '')), '') IS NULL: nothing but blanks.
abbrev pub is_blank : Text → Bool
is_blank name = not (any (λ c. not (c == b' ')) name)

abbrev pub named : Text → Time → User → User
named name now u = record u {
  first_name = if is_blank u.first_name then name else u.first_name;
  display_name = if is_blank u.display_name then name else u.display_name;
  updated_at = now;
}

abbrev pub verified_row : Time → Identity → Identity
verified_row now i = record i { last_verified_at = now }

-- A user who has signed in before. An empty name leaves the profile as it is; a wallet address is
-- not empty. The first name of the answer is the name if it was white space.
unfoldable pub sign_in_known :
    Answers → Challenge → Text → Time → Text → AuthDb → Identity × User → Result (User × AuthDb)
sign_in_known up c key now name db found = do
  user ← scan_nimiq_user key found
  require (up 4) (plain internal)
  require (is_empty name || up 5) (plain internal)
  require (up 6) (plain internal)
  ok (
    (if is_empty name then user else record user {
      first_name = if is_empty (trim_space user.first_name) then name else user.first_name;
    }),
    record db {
      identities =
          update_where (λ i. is_identity c.network c.claimed_address i && is_none i.revoked_at)
            (verified_row now) db.identities;
      users =
          if is_empty name
          then db.users
          else update_where (user_by_id user.id) (named name now) db.users;
    },
  )

abbrev pub new_user : ℕ → Text → Time → User
new_user id name now = record {
  id = id;
  email = [];
  first_name = name;
  display_name = name;
  active = true;
  deleted_at = none;
  updated_at = now;
}

-- The unique indexes: a network has one identity for an address, and one for a key.
unfoldable pub sign_in_new :
    Answers → ℕ → Challenge → Text → Time → Text → AuthDb → Result (User × AuthDb)
sign_in_new up id c key now name db = do
  require (up 4) (plain internal)
  require (not (any (user_by_id id) db.users)) (plain internal)
  require (up 5) (plain internal)
  require
      (not (
        any
          (λ i.
            is_identity c.network c.claimed_address i
            || (text_eq i.network c.network && text_eq i.public_key key))
          db.identities))
      (plain internal)
  require (up 6) (plain internal)
  ok (
    new_user id name now,
    record db {
      identities =
          record {
            user_id = id;
            network = c.network;
            address = c.claimed_address;
            public_key = key;
            last_verified_at = now;
            revoked_at = none;
          }
          ∷ db.identities;
      users = new_user id name now ∷ db.users;
    },
  )

unfoldable pub resolve_identity :
    Answers → ℕ → Challenge → Text → Time → Text → AuthDb → Result (User × AuthDb)
resolve_identity up id c key now name db = elim (find_user c.network c.claimed_address db) [
  | some found ↦ sign_in_known up c key now name db found
  | none ↦ sign_in_new up id c key now name db
]

-- The new user's id is uuid.New().
unfoldable pub consume_tx : Answers → ℕ → ℕ → Text → Time → Text → AuthDb → Result (User × AuthDb)
consume_tx up user_id id key now label db = do
  require (up 0) (plain internal)
  require (up 1) (plain internal)
  c ←
      or_fail (find (is_open id now) db.challenges)
        (coded conflict challenge_already_used_or_expired)
  require (up 2) (plain internal)
  require (up 3) (plain internal)
  resolve_identity up user_id c key now (display_name_for_wallet c.claimed_address label)
      (record db { challenges = update_where (is_open id now) (used now) db.challenges })

-- ConsumeAndResolveIdentity
unfoldable pub consume_and_resolve_identity :
    Answers → ℕ → ℕ → Text → Time → Text → AuthDb → Result User × AuthDb
consume_and_resolve_identity up user_id id key now label db =
    transact db (consume_tx up user_id id key now label db)

-- user_id = $1 AND revoked_at IS NULL, ORDER BY last_verified_at DESC
unfoldable pub verified_addresses : Bool → ℕ → AuthDb → Result (List Text)
verified_addresses up user db =
    require up (plain internal)
    >> ok (
        select (λ (a : Text). not (is_empty (trim_space a)))
          (map (λ (i : Identity). i.address)
            (sort_by (λ (i j : Identity). leb j.last_verified_at i.last_verified_at)
              (select (λ (i : Identity). i.user_id == user && is_none i.revoked_at)
                db.identities))))

-- AddressForUser: an empty text where there is no address.
unfoldable pub address_for_user : Bool → ℕ → AuthDb → Result Text
address_for_user up user db =
    verified_addresses up user db >>= (λ addresses. ok (coalesce (first addresses) []))
