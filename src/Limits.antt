-- ===== src/Limits.antt =====
-- The limits on what clients ask: the rate limiters of backend/internal/shared/ratelimit and the
-- pages of backend/internal/shared/pagination.
pub mod Rate
pub mod Window
pub mod Pages
