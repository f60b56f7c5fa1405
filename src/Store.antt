-- ===== src/Store.antt =====
-- The package `store`: the persisted TSS share.
pub mod Point
pub mod Share
pub mod Disk
