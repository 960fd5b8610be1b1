-- ===== src/Frontend.antt =====
-- The frontend in frontend/.
pub mod ReadHandler
pub mod Auth
pub mod Seed
pub mod Command
