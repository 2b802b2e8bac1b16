-- ===== src/Demo.antt =====
-- internal/database/demo: the read-only store of a seeded shop.
pub mod Outcome
pub mod Compare
pub mod Browse
pub mod Seed
