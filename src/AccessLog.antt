-- ===== src/AccessLog.antt =====
-- internal/accesslog, with internal/domain/accesslog.go: the searchable log of proxied requests.
pub mod Entry
pub mod Writer
mod Tests
