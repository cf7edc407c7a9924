-- ===== src/Store.antt =====
-- The PostgreSQL tables behind the payment code (backend/internal/infrastructure/postgres), and how
-- an operation of a repository runs against them. Users and their foreign keys are not modelled.
mod RequestRow
mod PurchaseRow
mod NimiqTx
mod EventTable
pub mod After
pub mod Yields
unfoldable pub use RequestRow.*
unfoldable pub use PurchaseRow.*
unfoldable pub use NimiqTx.*
unfoldable pub use EventTable.*
use nim_near.Prelude.{ℕ, Bool, Option, List, Result, ok, err}

-- A row of event_participants: a free reservation.
pub record Participant : Type 0 where
  pub event_id : ℕ
  pub user_id : ℕ

pub record Db : Type 0 where
  pub requests : List Request
  pub purchases : List Purchase
  pub consumed : List Consumed
  pub events : List EventRow
  pub participants : List Participant

-- Whether the k-th database call of an operation, in the order of its text, is answered. A call
-- that is not answered (a lost connection, a refused statement) is an error of kind internal.
abbrev pub Answers : Type 0
Answers = ℕ → Bool

-- A transaction ends by Commit with its writes, or with an error by the deferred Rollback.
abbrev pub transact {ℓ} : {A : Type ℓ} → Db → Result (A × Db) → Result A × Db
transact db (ok (a, written)) = (ok a, written)
transact db (err e) = (err e, db)
