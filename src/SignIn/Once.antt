-- ===== src/SignIn/Once.antt =====
-- A challenge signs in once, and only the owner of the wallet's key.
use nim_near.Prelude.{
  ℕ, ◌≡◌, ◌≢◌, ◌≤◌, ◌<◌, refl, sym, ap, subst, ◌∙◌, Bool, true, some, arith, ◌==◌, is_none, find,
  find-holds, Text, text_eq_sound, Result, ok, err, bind-eq-ok, require-eq-ok, or_fail-eq-ok,
}
use nim_near.Store.{Answers, Time}
use nim_near.SignIn.Tables.{Challenge, User, AuthDb, transact}
use nim_near.SignIn.Consume.{
  challenge_by_id, get_challenge, consume_tx, consume_and_resolve_identity,
}
use nim_near.SignIn.Keys.{address_from_public_key, signed_bytes, decode_fixed_hex}
use nim_near.SignIn.Verify.{
  NimiqAuthUseCase, VerifyRequest, decode_key, check_signature, checked, open_session, after_checks,
  verify,
}
use nim_near.SignIn.Closed.{
  ok_injective, failure, pair, IsClosed, consume_tx-IsClosed, closed-refused,
}

-- What the request of a successful Verify has shown.
pub record IsSigned (uc : NimiqAuthUseCase) (now : Time) (r : VerifyRequest) (db : AuthDb)
    : Type 0 where
  pub challenge : Challenge
  pub found : find (challenge_by_id r.challenge_id) db.challenges ≡ some challenge
  pub unused : is_none challenge.consumed_at ≡ true
  pub live : now < challenge.expires_at
  pub same_message : challenge.message ≡ r.message
  pub key : Text
  pub decoded : decode_key r.public_key ≡ some key
  pub owner : address_from_public_key uc.crypto key ≡ challenge.claimed_address
  pub signature : Text
  pub decoded_signature : decode_fixed_hex r.signature 64 ≡ some signature
  pub bytes : Text
  pub signed_text : signed_bytes uc.crypto challenge.transport challenge.message ≡ ok bytes
  pub signed : uc.crypto.verify key bytes signature ≡ true

check_signature-IsSigned :
    (uc : NimiqAuthUseCase) (now : Time) (r : VerifyRequest) (c : Challenge) (db : AuthDb)
    (k : Text)
    → find (challenge_by_id r.challenge_id) db.challenges ≡ some c
    → check_signature uc now r c ≡ ok k
    → IsSigned uc now r db
unfolding check_signature
check_signature-IsSigned uc now r c db k found h =
    let (_, unused, h1) = bind-eq-ok _ _ h in
    let (_, live, h2) = bind-eq-ok _ _ h1 in
    let (_, message, h3) = bind-eq-ok _ _ h2 in
    let (_, _, h4) = bind-eq-ok _ _ h3 in
    let (_, _, h5) = bind-eq-ok _ _ h4 in
    let (_, _, h6) = bind-eq-ok _ _ h5 in
    let (key, decoded, h7) = bind-eq-ok _ _ h6 in
    let (signature, decoded_signature, h8) = bind-eq-ok _ _ h7 in
    let (_, owner, h9) = bind-eq-ok _ _ h8 in
    let (bytes, signed_text, h10) = bind-eq-ok _ _ h9 in
    let (_, signed, _) = bind-eq-ok _ _ h10 in
    record {
      challenge = c;
      found = found;
      unused = require-eq-ok _ _ unused;
      live = ground (arith, require-eq-ok _ _ live);
      same_message = text_eq_sound _ _ (require-eq-ok _ _ message);
      key = key;
      decoded = or_fail-eq-ok _ _ decoded;
      owner = text_eq_sound _ _ (require-eq-ok _ _ owner);
      signature = signature;
      decoded_signature = or_fail-eq-ok _ _ decoded_signature;
      bytes = bytes;
      signed_text = signed_text;
      signed = require-eq-ok _ _ signed;
    }

-- A challenge that was read and checked.
record IsChecked (uc : NimiqAuthUseCase) (now : Time) (r : VerifyRequest) (db : AuthDb)
    (c : Challenge) : Type 0 where
  same_id : c.id ≡ r.challenge_id
  signed : IsSigned uc now r db

checked-IsChecked :
    (uc : NimiqAuthUseCase) (read : Bool) (now : Time) (r : VerifyRequest) (db : AuthDb)
    (c : Challenge) (k : Text)
    → checked uc read now r db ≡ ok (c, k)
    → IsChecked uc now r db c
unfolding checked get_challenge
checked-IsChecked uc read now r db c k h =
    let (d, got, h1) = bind-eq-ok _ _ h in
    let (key, signed, h2) = bind-eq-ok _ _ h1 in
    let (_, _, h3) = bind-eq-ok _ _ got in
    let found = or_fail-eq-ok _ _ h3 in
    let same : d ≡ c = ap (λ (x : Challenge × Text). x.0) (ok_injective h2) in
    let id : (d.id == r.challenge_id) ≡ true =
      find-holds (challenge_by_id r.challenge_id) db.challenges found in
    record {
      same_id = sym (ap (λ (x : Challenge). x.id) same) ∙ ground (arith, id);
      signed = check_signature-IsSigned uc now r d db key found signed;
    }

-- The session needs a consumed challenge.
session-consumed :
    (uc : NimiqAuthUseCase) (db db' : AuthDb) (m : Result (User × AuthDb)) (s : User × Text)
    → open_session uc (transact db m) ≡ (ok s, db')
    → (u : User) × (m ≡ ok (u, db'))
unfolding open_session
session-consumed uc db db' (ok (u, last)) s h = (u, pair refl (ap (λ p. p.1) h))
session-consumed uc db db' (err e) s h = failure (ap (λ p. p.0) h)

-- What a successful Verify has done: the checks, and the transaction.
record IsVerified (uc : NimiqAuthUseCase) (up : Answers) (user : ℕ) (now : Time) (r : VerifyRequest)
    (db db' : AuthDb) : Type 0 where
  signed : IsSigned uc now r db
  key : Text
  signed_in : User
  consumed : consume_tx up user r.challenge_id key now r.account_label db ≡ ok (signed_in, db')

after_checks-IsVerified :
    (uc : NimiqAuthUseCase) (read : Bool) (up : Answers) (user : ℕ) (now : Time) (r : VerifyRequest)
    (db db' : AuthDb) (s : User × Text) (m : Result (Challenge × Text))
    → checked uc read now r db ≡ m
    → after_checks uc up user now r db m ≡ (ok s, db')
    → IsVerified uc up user now r db db'
unfolding after_checks consume_and_resolve_identity
after_checks-IsVerified uc read up user now r db db' s (err e) same k = failure (ap (λ p. p.0) k)
after_checks-IsVerified uc read up user now r db db' s (ok (c, key)) same k =
    let facts = checked-IsChecked uc read now r db c key same in
    let (u, done) = session-consumed uc db db' _ s k in
    record {
      signed = facts.signed;
      key = key;
      signed_in = u;
      consumed =
          subst (λ i. consume_tx up user i key now r.account_label db ≡ ok (u, db')) facts.same_id
            done;
    }

verify-IsVerified :
    (uc : NimiqAuthUseCase) (read : Bool) (up : Answers) (user : ℕ) (now : Time) (r : VerifyRequest)
    (db db' : AuthDb) (s : User × Text)
    → verify uc read up user now r db ≡ (ok s, db')
    → IsVerified uc up user now r db db'
unfolding verify
verify-IsVerified uc read up user now r db db' s h =
    after_checks-IsVerified uc read up user now r db db' s (checked uc read now r db) refl h

-- Verify signs in only the owner of the wallet: when it succeeds, the challenge of the request is
-- in the table, was not used and has not expired, its message is the signed one, and the signature
-- of the bytes that the transport signs for the message is valid for a key whose address is the
-- claimed one.
pub verify-IsSigned :
    (uc : NimiqAuthUseCase) (read : Bool) (up : Answers) (user : ℕ) (now : Time) (r : VerifyRequest)
    (db db' : AuthDb) (s : User × Text)
    → verify uc read up user now r db ≡ (ok s, db')
    → IsSigned uc now r db
verify-IsSigned uc read up user now r db db' s h =
    (verify-IsVerified uc read up user now r db db' s h).signed

-- A challenge signs in once: after a Verify that succeeds at `now`, no Verify of the same
-- challenge, with any request, at that time or later, succeeds on the tables that it left.
pub verify-once :
    (uc : NimiqAuthUseCase) (read read' : Bool) (up up' : Answers) (user user' : ℕ)
    (now later : Time) (r r' : VerifyRequest) (db db' last : AuthDb) (s s' : User × Text)
    → verify uc read up user now r db ≡ (ok s, db')
    → now ≤ later
    → r'.challenge_id ≡ r.challenge_id
    → verify uc read' up' user' later r' db' ≢ (ok s', last)
verify-once uc read read' up up' user user' now later r r' db db' last s s' h le same k =
    let first = verify-IsVerified uc read up user now r db db' s h in
    let second = verify-IsVerified uc read' up' user' later r' db' last s' k in
    closed-refused up' user' r'.challenge_id second.key now later r'.account_label db'
      (second.signed_in, last) le
      (subst (λ i. IsClosed i now db'.challenges) (sym same)
        (consume_tx-IsClosed up user r.challenge_id first.key now r.account_label db
          (first.signed_in, db') first.consumed))
      second.consumed
