-- ===== src/Hub.antt =====
-- The WebSocket hub of backend/internal/infrastructure/websocket, with the room keys of
-- domain/realtime/model and the handler of infrastructure/http/handler/realtime.
pub mod Rooms
pub mod State
pub mod Operations
pub mod Views
pub mod Distinct
pub mod Clients
pub mod Sound
pub mod Ending
pub mod Calls
pub mod Safe
pub mod Reached
pub mod Sessions
pub mod Delivered
pub mod Names
pub mod Owned
pub mod Private
pub mod Bridge
pub mod Addressed
pub mod Relayed
pub mod Actions
pub mod Unchanged
