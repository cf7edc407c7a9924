-- ===== src/Requests.antt =====
-- Payment requests: the repository (backend/internal/infrastructure/postgres/paymentrequest).
pub mod Rows
pub mod Cancel
pub mod Submit
pub mod Settle
pub mod Cases
pub mod Claim
pub mod Candidates
pub mod Calls
pub mod Lifecycle
pub mod UseCase
