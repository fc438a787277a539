-- ===== src/Cache.antt =====
-- internal/cache: upstream responses held in memory.
pub mod Recency
pub mod Key
pub mod Entry
pub mod Host
pub mod Hosts
pub mod Setting
pub mod Directives
pub mod Policy
pub mod Revalidation
mod Tests
