-- ===== src/SignIn.antt =====
-- Sign-in with a Nimiq wallet: application/iam/usecase/nimiq_auth.go and
-- infrastructure/postgres/iam/nimiq_auth_repository.go.
pub mod Tables
pub mod Consume
pub mod Keys
pub mod Verify
pub mod Closed
pub mod Once
