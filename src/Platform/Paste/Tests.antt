-- ===== src/Platform/Paste/Tests.antt =====
-- An editor's window, found again under another title.
use free_whisper.Prelude.{◌≡◌, ◌↔◌, false, some, codes}
use free_whisper.Platform.Paste.{
  TargetWindowSnapshot, ForegroundWindow, allowed, evaluate_paste_policy,
}
use free_whisper.Platform.Paste.Policy.{IsSameWindow, allowed_iff_IsSameWindow}

abbrev editor : TargetWindowSnapshot
editor = record {
  window_handle = 4;
  process_id = 9;
  process_started_at_filetime = 1300;
  title = codes "a.txt";
}

abbrev window : ForegroundWindow
window = record { snapshot = record editor { title = codes "b.txt" }; elevated = false }

allowed_iff_IsSameWindow_example : (evaluate_paste_policy (some editor) (some window) ≡ allowed) ↔ (
    (target : TargetWindowSnapshot) × (current : ForegroundWindow) × (some editor ≡ some target)
    × (some window ≡ some current)
    × (current.elevated ≡ false)
    × IsSameWindow target current.snapshot)
allowed_iff_IsSameWindow_example = allowed_iff_IsSameWindow (some editor) (some window)
