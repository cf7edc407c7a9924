-- ===== src/Http.antt =====
-- backend/internal/shared: errors, the client address, and the middleware in front of the handlers.
pub mod Status
pub mod Headers
pub mod ClientIp
pub mod Guards
pub mod Origins
pub mod Trust
