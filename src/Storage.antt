-- ===== src/Storage.antt =====
-- crates/storage/src/lib.rs: the rules that the storage keeps on its tables.
mod Tests
pub mod Models
