-- ===== src/Providers.antt =====
-- crates/providers/src/lib.rs: the client of a worker, remote or on the same machine.
mod Tests
pub mod Error
pub mod Endpoint
pub mod Sidecar
pub mod Client
