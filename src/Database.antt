-- ===== src/Database.antt =====
-- The key ranges of picomint-redb.
pub mod Ranges
pub mod Prefixes
pub mod Scans
