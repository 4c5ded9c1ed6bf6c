-- ===== src/Worker.antt =====
-- apps/worker/src/lib.rs: the worker's HTTP boundary.
pub mod Failure
pub mod Limiter
pub mod Audio
pub mod Options
pub mod Multipart
pub mod Service
