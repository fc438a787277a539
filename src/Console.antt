-- ===== src/Console.antt =====
-- internal/api: the console.
pub mod Login
mod Tests
