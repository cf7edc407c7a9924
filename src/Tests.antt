-- ===== src/Tests.antt =====
-- The theorems at concrete inputs, and runs of the code.
mod Payments
mod Nimiq
mod UseCases
mod Money
mod Events
mod Limits
mod Created
mod SignIn
mod Hub
mod Gateway
mod Rpc
mod Management
