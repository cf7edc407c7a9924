-- ===== src/SignIn/Tables.antt =====
-- The tables of 00024_add_nimiq_auth.sql, and the columns of users that a sign-in reads and writes.
use nim_near.Prelude.{ℕ, Bool, ◌&&◌, Option, List, Text, is_none, Result, ok, err}
use nim_near.Store.{Time}

-- usecase.NimiqChallenge
pub record Challenge : Type 0 where
  pub id : ℕ
  pub nonce : Text
  pub purpose : Text
  pub transport : Text
  pub environment : Text
  pub network : Text
  pub domain : Text
  pub audience : Text
  pub claimed_address : Text
  pub message : Text
  pub issued_at : Time
  pub expires_at : Time
  pub consumed_at : Option Time

-- A row of user_nimiq_identities.
pub record Identity : Type 0 where
  pub user_id : ℕ
  pub network : Text
  pub address : Text
  pub public_key : Text
  pub last_verified_at : Time
  pub revoked_at : Option Time

-- model.User, less the last name and the password hash; `active` is status = 'active', and an email
-- that is NULL is read as the empty text.
pub record User : Type 0 where
  pub id : ℕ
  pub email : Text
  pub first_name : Text
  pub display_name : Text
  pub active : Bool
  pub deleted_at : Option Time
  pub updated_at : Time

-- User.IsActive
abbrev pub is_active : User → Bool
is_active u = u.active && is_none u.deleted_at

pub record AuthDb : Type 0 where
  pub challenges : List Challenge
  pub identities : List Identity
  pub users : List User

abbrev pub transact {ℓ} : {A : Type ℓ} → AuthDb → Result (A × AuthDb) → Result A × AuthDb
transact db (ok (a, written)) = (ok a, written)
transact db (err e) = (err e, db)
