-- ===== src/Platform.antt =====
-- crates/platform-windows/src/lib.rs: the policies at the Windows boundary. The Win32 calls of
-- native.rs are no part of them.
pub mod Hotkey
pub mod Paste
