-- ===== src/Nimiq.antt =====
-- The Nimiq side: networks, and the check of one transfer against an RPC node.
pub mod Network
pub mod Address
pub mod Normal
pub mod Verifier
pub mod Confirmed
pub mod Wire
pub mod Uint64
pub mod Client
pub mod Calls
pub mod Read
pub mod Outcomes
pub mod Heard
pub mod Health
pub mod Wallet
