-- ===== src/Requests/UseCase.antt =====
-- backend/internal/application/paymentrequest/usecase: the use case, its policy and its events.
pub mod Setup
pub mod Reconcile
pub mod Commands
pub mod Verified
pub mod Creation
pub mod Created
