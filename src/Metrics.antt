-- ===== src/Metrics.antt =====
-- internal/metrics: what the console draws.
pub mod Share
mod Tests
