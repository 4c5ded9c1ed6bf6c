-- ===== src/Platform/Paste/Policy.antt =====
-- What the paste policy lets through.
use free_whisper.Prelude.{◌≡◌, ◌↔◌, false, Option, some, arith}
use free_whisper.Platform.Paste.{
  TargetWindowSnapshot, ForegroundWindow, allowed, evaluate_paste_policy,
}

-- The same window of the same process, whatever its title is by now.
pub record IsSameWindow (target current : TargetWindowSnapshot) : Type 0 where
  pub handle : current.window_handle ≡ target.window_handle
  pub process : current.process_id ≡ target.process_id
  pub started : current.process_started_at_filetime ≡ target.process_started_at_filetime

-- A paste is allowed exactly when a target was captured and the foreground window is that very
-- window of that very process, by handle, process id and start time, and is not elevated.
pub allowed_iff_IsSameWindow :
    (expected : Option TargetWindowSnapshot) (foreground : Option ForegroundWindow)
    → (evaluate_paste_policy expected foreground ≡ allowed) ↔ (
        (target : TargetWindowSnapshot) × (window : ForegroundWindow) × (expected ≡ some target)
        × (foreground ≡ some window)
        × (window.elevated ≡ false)
        × IsSameWindow target window.snapshot)
unfolding evaluate_paste_policy
allowed_iff_IsSameWindow expected foreground = ground arith
