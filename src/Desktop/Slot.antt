-- ===== src/Desktop/Slot.antt =====
-- apps/desktop/src-tauri/src/lib.rs: `reserve_processing_slot`, `clear_queued_job`,
-- `cancel_queued_job` and `clear_processing`. One inference runs at a time and one finalized job
-- waits for it. Every critical section of a lock is one step, so that a schedule may interleave
-- the jobs between any two of them. The locks are never poisoned: no holder can panic. A task
-- that waits may go on at any time: that allows every order in which `Notify` can wake it.
pub mod Exclusion
pub mod Ownership
mod Tests
use free_whisper.Prelude.{
  ℕ, Bool, true, false, List, [], ◌∷◌, Option, none, some, ◌==◌, if◌then◌else◌, Result, ok, err,
}

pub data SlotError : Type 0 where
  transcription_cancelled queue_full queue_state_missing processing_state_missing : SlotError
  job_ownership_violation : (owner : ℕ) → SlotError

-- `DesktopState`: the two locks. The request and the provider of a processing job are not read
-- by this code. A queued job's cancellation token is its own, so that it is told
-- by the job.
pub record Slots : Type 0 where
  pub processing : Option ℕ
  pub queued : Option ℕ
  pub cancelled : ℕ → Bool

unfoldable pub clear_queued_job : Slots → (job_id : ℕ) → Slots × Result SlotError (Unit {0})
clear_queued_job state job_id = elim state.queued [
  | some queued ↦
      if queued == job_id
      then (record state { queued = none }, ok tt)
      else (state, err (job_ownership_violation queued))
  | none ↦ (state, err queue_state_missing)
]

unfoldable pub clear_processing : Slots → (job_id : ℕ) → Slots × Result SlotError (Unit {0})
clear_processing state job_id = elim state.processing [
  | some active ↦
      if active == job_id
      then (record state { processing = none }, ok tt)
      else (state, err (job_ownership_violation active))
  | none ↦ (state, err processing_state_missing)
]

unfoldable pub cancel_queued_job : Slots → Slots × Option ℕ
cancel_queued_job state = elim state.queued [
  | some queued ↦ (
    record state { cancelled = λ job. if job == queued then true else state.cancelled job },
    some queued,
  )
  | none ↦ (state, none)
]

-- Where the task of a job stands. In `reserve_processing_slot` a `queued` is the local variable
-- of that name: before the test of the token (`checking`), before the lock on `processing`
-- (`taking`), before the lock on `queued` (`pushing`), before `clear_queued_job` with the slot
-- taken (`settling`) or on a cancelled token (`leaving`), and at the `select!` (`waiting`). After
-- it the job has the slot (`reserved`) or got an error (`failed`), and the release of its own slot
-- is done (`finished`) or got an error (`unreleased`).
pub data Phase : Type 0 where
  idle pushing settling leaving waiting reserved finished : Phase
  checking taking : (queued : Bool) → Phase
  failed unreleased : SlotError → Phase

-- Where a clearing of a slot leads.
after_clear : Slots × Result SlotError (Unit {0}) → Phase → (SlotError → Phase) → Slots × Phase
after_clear (state, ok done) next error = (state, next)
after_clear (state, err e) next error = (state, error e)

-- The next critical section of the job's task.
unfoldable pub advance : Slots → (job_id : ℕ) → Phase → Slots × Phase
unfolding clear_queued_job clear_processing after_clear
advance state job_id idle = (state, checking false)
advance state job_id (checking queued) = (
  state,
  if state.cancelled job_id
      then (if queued then leaving else failed transcription_cancelled)
      else taking queued,
)
advance state job_id (taking queued) = elim state.processing [
  | none ↦ (record state { processing = some job_id }, if queued then settling else reserved)
  | some active ↦ (state, if queued then waiting else pushing)
]
advance state job_id pushing = elim state.queued [
  | some other ↦ (state, failed queue_full)
  | none ↦ (record state { queued = some job_id }, waiting)
]
advance state job_id settling = after_clear (clear_queued_job state job_id) reserved failed
advance state job_id leaving =
    after_clear (clear_queued_job state job_id) (failed transcription_cancelled) failed
advance state job_id waiting = (state, checking true)
advance state job_id reserved = after_clear (clear_processing state job_id) finished unreleased
advance state job_id finished = (state, finished)
advance state job_id (failed e) = (state, failed e)
advance state job_id (unreleased e) = (state, unreleased e)

-- The host with its tasks, each job with its own.
pub record Host : Type 0 where
  pub slots : Slots
  pub phases : ℕ → Phase

-- A task moves; the cancel command cancels the waiting job; the cancel command releases the slot
-- of the job that it saw processing.
pub data Action : Type 0 where
  advances : (job_id : ℕ) → Action
  cancels : Action
  releases : (job_id : ℕ) → Action

unfoldable pub step : Host → Action → Host
unfolding advance cancel_queued_job clear_processing
step host (advances job_id) =
    let (slots, phase) = advance host.slots job_id (host.phases job_id) in
    record { slots = slots; phases = λ job. if job == job_id then phase else host.phases job }
step host cancels = record host { slots = (cancel_queued_job host.slots).0 }
step host (releases job_id) = record host { slots = (clear_processing host.slots job_id).0 }

unfoldable pub run : Host → List Action → Host
run host [] = host
run host (action ∷ actions) = run (step host action) actions

unfoldable pub start : Host
start = record {
  slots = record { processing = none; queued = none; cancelled = λ job. false };
  phases = λ job. idle;
}
