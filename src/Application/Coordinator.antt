-- ===== src/Application/Coordinator.antt =====
-- crates/application/src/lib.rs, `RecordingCoordinator`: who holds the microphone slot. A method
-- on `&mut self` returns the coordinator after the call with its result; the coordinator's one
-- field is its capture phase, and a job id is a number.
pub mod Ownership
use free_whisper.Prelude.{
  ℕ, List, [], ◌∷◌, Option, none, some, ◌==◌, if◌then◌else◌, Result, ok, err,
}

pub data CapturePhase : Type 0 where
  idle : CapturePhase
  preparing recording finalizing : (job_id : ℕ) → CapturePhase

unfoldable pub job_id : CapturePhase → Option ℕ
job_id idle = none
job_id (preparing j) = some j
job_id (recording j) = some j
job_id (finalizing j) = some j

pub data PreparationCommit : Type 0 where
  recording cancelled : PreparationCommit

pub data CancelledCapture : Type 0 where
  preparing recording finalizing : (job_id : ℕ) → CancelledCapture

pub data RecordingCoordinatorError : Type 0 where
  capture_busy : (active_job_id : ℕ) (phase : CapturePhase) → RecordingCoordinatorError
  already_finalizing : (job_id : ℕ) → RecordingCoordinatorError
  no_active_recording : (phase : CapturePhase) → RecordingCoordinatorError
  job_ownership : (requested_job_id : ℕ) (active_job_id : Option ℕ) → RecordingCoordinatorError

pub record RecordingCoordinator : Type 0 where
  pub capture : CapturePhase

abbrev pub Outcome : Type 0 → Type 0
Outcome A = RecordingCoordinator × Result RecordingCoordinatorError A

abbrev pub at : CapturePhase → RecordingCoordinator
at phase = record { capture = phase }

-- Each method matches on `self.capture`.
reserve_start_from : CapturePhase → ℕ → Outcome (Unit {0})
reserve_start_from idle j = (at (preparing j), ok tt)
reserve_start_from (preparing active) j =
    (at (preparing active), err (capture_busy active (preparing active)))
reserve_start_from (recording active) j =
    (at (recording active), err (capture_busy active (recording active)))
reserve_start_from (finalizing active) j =
    (at (finalizing active), err (capture_busy active (finalizing active)))

unfoldable pub reserve_start : RecordingCoordinator → ℕ → Outcome (Unit {0})
unfolding reserve_start_from
reserve_start self j = reserve_start_from self.capture j

-- The last arm of the three methods that only the owner may call.
abbrev ownership : {A : Type 0} → CapturePhase → ℕ → Outcome A
ownership phase j = (at phase, err (job_ownership j (job_id phase)))

commit_preparation_from : CapturePhase → ℕ → Outcome PreparationCommit
unfolding job_id
commit_preparation_from (preparing active) j =
    if active == j
    then (at (recording j), ok PreparationCommit.recording)
    else ownership (preparing active) j
commit_preparation_from idle j = (at idle, ok cancelled)
commit_preparation_from (recording active) j = ownership (recording active) j
commit_preparation_from (finalizing active) j = ownership (finalizing active) j

unfoldable pub commit_preparation : RecordingCoordinator → ℕ → Outcome PreparationCommit
unfolding commit_preparation_from
commit_preparation self j = commit_preparation_from self.capture j

begin_finalization_from : CapturePhase → Outcome ℕ
begin_finalization_from (recording j) = (at (finalizing j), ok j)
begin_finalization_from (finalizing j) = (at (finalizing j), err (already_finalizing j))
begin_finalization_from idle = (at idle, err (no_active_recording idle))
begin_finalization_from (preparing j) = (at (preparing j), err (no_active_recording (preparing j)))

unfoldable pub begin_finalization : RecordingCoordinator → Outcome ℕ
unfolding begin_finalization_from
begin_finalization self = begin_finalization_from self.capture

release_finalization_from : CapturePhase → ℕ → Outcome (Unit {0})
unfolding job_id
release_finalization_from (finalizing active) j =
    if active == j then (at idle, ok tt) else ownership (finalizing active) j
release_finalization_from idle j = ownership idle j
release_finalization_from (preparing active) j = ownership (preparing active) j
release_finalization_from (recording active) j = ownership (recording active) j

unfoldable pub release_finalization : RecordingCoordinator → ℕ → Outcome (Unit {0})
unfolding release_finalization_from
release_finalization self j = release_finalization_from self.capture j

abandon_preparation_from : CapturePhase → ℕ → Outcome (Unit {0})
unfolding job_id
abandon_preparation_from (preparing active) j =
    if active == j then (at idle, ok tt) else ownership (preparing active) j
abandon_preparation_from idle j = (at idle, ok tt)
abandon_preparation_from (recording active) j = ownership (recording active) j
abandon_preparation_from (finalizing active) j = ownership (finalizing active) j

unfoldable pub abandon_preparation : RecordingCoordinator → ℕ → Outcome (Unit {0})
unfolding abandon_preparation_from
abandon_preparation self j = abandon_preparation_from self.capture j

cancel_capture_from : CapturePhase → RecordingCoordinator × Option CancelledCapture
cancel_capture_from idle = (at idle, none)
cancel_capture_from (preparing j) = (at idle, some (CancelledCapture.preparing j))
cancel_capture_from (recording j) = (at idle, some (CancelledCapture.recording j))
cancel_capture_from (finalizing j) = (at (finalizing j), some (CancelledCapture.finalizing j))

unfoldable pub cancel_capture :
    RecordingCoordinator → RecordingCoordinator × Option CancelledCapture
unfolding cancel_capture_from
cancel_capture self = cancel_capture_from self.capture

-- The calls that hosts make, in any order and for any jobs.
pub data Call : Type 0 where
  reserve commit release abandon : (job_id : ℕ) → Call
  begin cancel : Call

unfoldable pub step : RecordingCoordinator → Call → RecordingCoordinator
unfolding reserve_start commit_preparation release_finalization abandon_preparation
    begin_finalization cancel_capture
step self (reserve j) = (reserve_start self j).0
step self (commit j) = (commit_preparation self j).0
step self (release j) = (release_finalization self j).0
step self (abandon j) = (abandon_preparation self j).0
step self begin = (begin_finalization self).0
step self cancel = (cancel_capture self).0

unfoldable pub run : RecordingCoordinator → List Call → RecordingCoordinator
run self [] = self
run self (call ∷ calls) = run (step self call) calls
