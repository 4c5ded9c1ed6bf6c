-- ===== src/Application.antt =====
-- crates/application/src/lib.rs: the microphone slot, the bounded queue and the job registry.
pub mod Coordinator
pub mod Queue
pub mod Registry
mod Tests
