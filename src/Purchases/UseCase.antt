-- ===== src/Purchases/UseCase.antt =====
-- purchase.go: PurchaseUseCase.
pub mod Setup
pub mod Reconcile
pub mod Commands
pub mod Verified
