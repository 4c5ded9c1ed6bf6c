-- ===== src/Desktop/Slot/Exclusion.antt =====
-- In every interleaving of the tasks and of the cancel command, the queue's owner is the one task
-- that believes it waits.
use free_whisper.Prelude.{
  ℕ, ◌≡◌, refl, sym, ◌∙◌, ◌≢◌, inl, inr, Bool, true, false, List, [], ◌∷◌, Option, none, some,
  arith, Bool-cases, ◌==◌,
}
use free_whisper.Desktop.Slot.{
  Slots, Phase, Host, Action, advances, cancels, releases, advance, clear_queued_job,
  clear_processing, cancel_queued_job, after_clear, step, run, start, idle, checking, taking,
  pushing, settling, leaving, waiting, reserved, finished, failed, unreleased,
  transcription_cancelled, queue_full,
}

-- Whether a task believes that its job is in the queue, and that it has the slot.
abbrev pub is_queued : Phase → Bool
is_queued (checking queued) = queued
is_queued (taking queued) = queued
is_queued settling = true
is_queued leaving = true
is_queued waiting = true
is_queued _ = false

abbrev pub has_slot : Phase → Bool
has_slot settling = true
has_slot reserved = true
has_slot _ = false

abbrev pub owns : Option ℕ → ℕ → Bool
owns none job = false
owns (some owner) job = job == owner

-- No reservation ended in an error but the two that it is meant to give.
abbrev pub is_clean : Phase → Bool
is_clean (failed transcription_cancelled) = true
is_clean (failed queue_full) = true
is_clean (failed e) = false
is_clean _ = true

-- No release of a job's own slot failed.
abbrev pub is_released : Phase → Bool
is_released (unreleased e) = false
is_released _ = true

module _ (state : Slots) (k : ℕ) where
  -- A task that knows where it stands in the queue knows it after its next critical section, which
  -- moves no other job.
  abbrev Keeps : Phase → Type 0
  Keeps phase =
      is_queued phase ≡ owns state.queued k
      → let (state', phase') = advance state k phase in
        (is_queued phase' ≡ owns state'.queued k)
        × ((job : ℕ) → job ≢ k → owns state'.queued job ≡ owns state.queued job)

  advance_queue : (phase : Phase) → Keeps phase
  unfolding advance clear_queued_job clear_processing after_clear
  advance_queue idle v = ground arith
  advance_queue (checking queued) v = ground arith
  advance_queue (taking queued) v = ground arith
  advance_queue pushing v = ground arith
  advance_queue settling v = ground arith
  advance_queue leaving v = ground arith
  advance_queue waiting v = ground arith
  advance_queue reserved v = ground arith
  advance_queue finished v = ground arith
  advance_queue (failed e) v = ground arith
  advance_queue (unreleased e) v = ground arith

  stays_clean :
      (phase : Phase)
      → is_clean phase ≡ true
      → is_queued phase ≡ owns state.queued k
      → is_clean (advance state k phase).1 ≡ true
  unfolding advance clear_queued_job clear_processing after_clear
  stays_clean idle c v = ground arith
  stays_clean (checking queued) c v = ground arith
  stays_clean (taking queued) c v = ground arith
  stays_clean pushing c v = ground arith
  stays_clean settling c v = ground arith
  stays_clean leaving c v = ground arith
  stays_clean waiting c v = ground arith
  stays_clean reserved c v = ground arith
  stays_clean finished c v = ground arith
  stays_clean (failed e) c v = c
  stays_clean (unreleased e) c v = c

-- What holds of every task after any schedule.
abbrev pub QueueInv : Host → ℕ → Type 0
QueueInv host job =
    (is_queued (host.phases job) ≡ owns host.slots.queued job) × (is_clean (host.phases job) ≡ true)

pub queue_step :
    (host : Host) (action : Action)
    → ((job : ℕ) → QueueInv host job)
    → (job : ℕ) → QueueInv (step host action) job
unfolding step clear_processing cancel_queued_job
queue_step host (releases k) v job = ground (arith, v job)
queue_step host cancels v job = ground (arith, v job)
queue_step host (advances k) v job =
    let (mine, others) = advance_queue host.slots k (host.phases k) (v k).0 in
    elim (Bool-cases (job == k)) [
      | inl same ↦
          let here : job ≡ k = ground (arith, same) in
          rw same (rw here (mine, stays_clean host.slots k (host.phases k) (v k).1 (v k).0))
      | inr other ↦ rw other ((v job).0 ∙ sym (others job (ground (arith, other))), (v job).1)
    ]

run_queue :
    (host : Host) (actions : List Action)
    → ((job : ℕ) → QueueInv host job)
    → (job : ℕ) → QueueInv (run host actions) job
unfolding run
run_queue host [] v job = v job
run_queue host (action ∷ actions) v job =
    run_queue (step host action) actions (queue_step host action v) job

pub start_queue : (job : ℕ) → QueueInv start job
unfolding start
start_queue job = (refl, refl)

-- After any interleaving of the tasks with the cancel command, its release of the slot included, a
-- job's task believes that it waits in the queue exactly when the queue names the job, so that no
-- two wait at once; and a reservation that failed did so on cancellation or on a full queue, never
-- on a queue that another job owns or that is empty.
pub queue_is_owned :
    (actions : List Action) (job : ℕ)
    → (is_queued ((run start actions).phases job) ≡ owns (run start actions).slots.queued job)
      × (is_clean ((run start actions).phases job) ≡ true)
queue_is_owned actions job = run_queue start actions start_queue job
