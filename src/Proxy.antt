-- ===== src/Proxy.antt =====
-- internal/proxy: the data plane.
pub mod Routing
pub mod Redirects
pub mod Forward
pub mod Limits
pub mod Access
pub mod Caching
mod Tests
