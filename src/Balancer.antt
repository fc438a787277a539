-- ===== src/Balancer.antt =====
-- internal/balancer: the live backends of a host, and which of them serves a request.
pub mod Backend
pub mod Selector
pub mod Pool
mod Tests
