-- ===== src/Domain.antt =====
-- internal/domain: what an operator enters, its normal form and what is refused.
pub mod Names
pub mod Upstreams
pub mod Redirect
pub mod Options
pub mod Rewriting
pub mod Site
mod Tests
