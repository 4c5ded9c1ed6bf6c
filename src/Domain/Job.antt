-- ===== src/Domain/Job.antt =====
-- crates/domain/src/lib.rs, `AppState` and `JobStateMachine`. A `JobId` is the 128-bit number of
-- its UUID; a method on `&mut self` returns the machine after the call with its result.
pub mod Lifecycle
pub mod Follows
mod Tests
use free_whisper.Prelude.{
  ℕ, ◌≡◌, refl, Bool, true, false, not, List, [], ◌∷◌, ◌==◌, if◌then◌else◌, Result, ok, err, is_ok,
}

pub data AppState : Type 0 where
  idle preparing_recording recording finalizing_audio queued loading_model : AppState
  transcribing applying_corrections awaiting_injection_confirmation injecting : AppState
  completed failed cancelling : AppState

-- The table of `AppState::allows_transition_to`.
unfoldable pub allows_transition_to : AppState → AppState → Bool
allows_transition_to idle preparing_recording = true
allows_transition_to preparing_recording recording = true
allows_transition_to preparing_recording cancelling = true
allows_transition_to preparing_recording failed = true
allows_transition_to recording finalizing_audio = true
allows_transition_to recording cancelling = true
allows_transition_to recording failed = true
allows_transition_to finalizing_audio queued = true
allows_transition_to finalizing_audio cancelling = true
allows_transition_to finalizing_audio failed = true
allows_transition_to queued loading_model = true
allows_transition_to queued transcribing = true
allows_transition_to queued cancelling = true
allows_transition_to queued failed = true
allows_transition_to loading_model transcribing = true
allows_transition_to loading_model cancelling = true
allows_transition_to loading_model failed = true
allows_transition_to transcribing applying_corrections = true
allows_transition_to transcribing cancelling = true
allows_transition_to transcribing failed = true
allows_transition_to applying_corrections awaiting_injection_confirmation = true
allows_transition_to applying_corrections injecting = true
allows_transition_to applying_corrections completed = true
allows_transition_to applying_corrections failed = true
allows_transition_to awaiting_injection_confirmation injecting = true
allows_transition_to awaiting_injection_confirmation completed = true
allows_transition_to awaiting_injection_confirmation cancelling = true
allows_transition_to awaiting_injection_confirmation failed = true
allows_transition_to injecting completed = true
allows_transition_to injecting failed = true
allows_transition_to completed idle = true
allows_transition_to failed idle = true
allows_transition_to cancelling failed = true
allows_transition_to cancelling idle = true
allows_transition_to _ _ = false

pub data StateTransitionError : Type 0 where
  wrong_job : (job_id attempted_by : ℕ) → StateTransitionError
  invalid : (job_id : ℕ) (from to : AppState) → StateTransitionError

pub record JobStateMachine : Type 0 where
  pub job_id : ℕ
  pub state : AppState

unfoldable pub new : ℕ → JobStateMachine
new job_id = record { job_id = job_id; state = idle }

unfoldable pub transition :
    JobStateMachine → AppState → JobStateMachine × Result StateTransitionError (Unit {0})
transition self next =
    if not (allows_transition_to self.state next)
    then (self, err (invalid self.job_id self.state next))
    else (record self { state = next }, ok tt)

unfoldable pub transition_for :
    JobStateMachine → ℕ → AppState → JobStateMachine × Result StateTransitionError (Unit {0})
unfolding transition
transition_for self requested_by next =
    if not (requested_by == self.job_id)
    then (self, err (wrong_job self.job_id requested_by))
    else transition self next

-- A history of requests, each with the job that makes it: the machine after it, and the states
-- that the accepted requests entered, in order.
unfoldable pub run : JobStateMachine → List (ℕ × AppState) → JobStateMachine × List AppState
run self [] = (self, [])
run self ((requested_by, next) ∷ rest) =
    let (self', result) = transition_for self requested_by next in
    let (last, entered) = run self' rest in (last, if is_ok result then next ∷ entered else entered)
