-- ===== src/Gateway.antt =====
-- The API gateway: its policy pipeline, its generic database handler, the management of its
-- endpoints, and the mask of private values.
pub mod Ident
pub mod Statements
pub mod Handler
pub mod Pipeline
pub mod Columns
pub mod Safe
pub mod Scoped
pub mod Routed
pub mod Governed
pub mod Endpoints
pub mod Management
pub mod Preserved
pub mod Retired
pub mod Masking
pub mod Masked
pub mod Dispatch
