-- ===== src/Common.antt =====
-- The shared utilities (crates/common).
pub mod Interner
pub mod Maps
pub mod Sums
pub mod Lru
pub mod Threads
