-- ===== src/Audio.antt =====
-- crates/audio/src/lib.rs: bounded capture of the microphone, voice activity, and the recording
-- that comes of it.
mod Tests
pub mod Settings
pub mod Signal
pub mod Vad
pub mod Resample
pub mod Capture
