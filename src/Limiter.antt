-- ===== src/Limiter.antt =====
-- internal/limiter: whether one client address may make another request of a host.
pub mod Bucket
pub mod Table
mod Tests
