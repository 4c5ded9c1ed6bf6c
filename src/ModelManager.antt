-- ===== src/ModelManager.antt =====
-- crates/model-manager/src/lib.rs: signed model catalogues, and the installation of a model.
mod Tests
pub mod Error
pub mod Manifest
pub mod Paths
pub mod Disk
pub mod Files
pub mod Resume
pub mod Activation
pub mod Legacy
pub mod Install
