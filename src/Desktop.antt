-- ===== src/Desktop.antt =====
-- apps/desktop/src-tauri: the part of the desktop host that hands finalized recordings to the
-- speech engine.
pub mod Slot
