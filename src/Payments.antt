-- ===== src/Payments.antt =====
-- Payment requests and event purchases over one database: the calls of both repositories in any
-- order, and the table of consumed hashes (postgres/nimiqtx) that they share.
pub mod Calls
pub mod Reserved
pub mod Once
pub mod OnChain
