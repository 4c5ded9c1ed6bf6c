-- ===== src/Platform/Paste.antt =====
-- crates/platform-windows/src/lib.rs: `evaluate_paste_policy`. A window handle, a process id and a
-- creation time are numbers.
pub mod Policy
mod Tests
use free_whisper.Prelude.{ℕ, Bool, not, ◌||◌, Option, none, some, ◌==◌, if◌then◌else◌, Text}

pub record TargetWindowSnapshot : Type 0 where
  pub window_handle : ℕ
  pub process_id : ℕ
  pub process_started_at_filetime : ℕ
  pub title : Text

pub record ForegroundWindow : Type 0 where
  pub snapshot : TargetWindowSnapshot
  pub elevated : Bool

pub data PasteRefusal : Type 0 where
  no_target_window window_changed elevated_target focus_denied : PasteRefusal

pub data PasteDecision : Type 0 where
  allowed : PasteDecision
  refused : PasteRefusal → PasteDecision

unfoldable pub evaluate_paste_policy :
    (expected : Option TargetWindowSnapshot) (foreground : Option ForegroundWindow) → PasteDecision
evaluate_paste_policy none foreground = refused no_target_window
evaluate_paste_policy (some expected) none = refused window_changed
evaluate_paste_policy (some expected) (some foreground) =
    if foreground.elevated
    then refused elevated_target
    else if not (foreground.snapshot.window_handle == expected.window_handle)
        || not (foreground.snapshot.process_id == expected.process_id)
        || not (
            foreground.snapshot.process_started_at_filetime == expected.process_started_at_filetime)
    then refused window_changed
    else allowed
