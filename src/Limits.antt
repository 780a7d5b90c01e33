-- ===== src/Limits.antt =====
-- Package ratelimit (internal/ratelimit): how many calls of one key pass in a window.
pub mod Limiter
pub mod Window
mod Tests
