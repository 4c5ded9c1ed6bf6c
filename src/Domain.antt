-- ===== src/Domain.antt =====
-- crates/domain/src/lib.rs: the values and the job state machine that the other crates share.
pub mod Job
pub mod Catalogue
pub mod Language
pub mod Payload
pub mod Transcript
