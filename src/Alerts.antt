-- ===== src/Alerts.antt =====
-- internal/alerts: what operators are told.
pub mod Usage
pub mod Channel
pub mod Dispatcher
mod Tests
