-- ===== src/Purchases.antt =====
-- Paid event purchases: the repository (backend/internal/infrastructure/postgres/eventpurchase).
pub mod Rows
pub mod Create
pub mod Submit
pub mod Settle
pub mod Recover
pub mod Calls
pub mod Capacity
pub mod Cases
pub mod Claim
pub mod Lifecycle
pub mod UseCase
