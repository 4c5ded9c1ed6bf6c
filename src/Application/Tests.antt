-- ===== src/Application/Tests.antt =====
-- Three jobs at the microphone, a queue of two, and a registry of two jobs.
use free_whisper.Prelude.{
  ℕ, ◌≡◌, refl, ◌≢◌, ◌≤◌, List, [], ◌∷◌, ◌++◌, Memᴰ, some, arith, ok, length, inr, if◌then◌else◌,
  ◌==◌, ◌&&◌,
}
use free_whisper.Domain.Job.{preparing_recording}
use free_whisper.Application.Coordinator.{
  CapturePhase, PreparationCommit, at, job_id, reserve_start, capture_busy, cancel_capture,
  commit_preparation, reserve, commit, begin, cancel, release,
}
use free_whisper.Application.Coordinator
use free_whisper.Application.Coordinator.Ownership.{
  cancelled_never_records, run_keeps_finalizing, recording_was_prepared,
}
use free_whisper.Application.Queue.{enqueue, len, full, start, enqueues, dequeues}
use free_whisper.Application.Queue
use free_whisper.Application.Queue.Fifo.{run_is_fifo}
use free_whisper.Application.Registry.{
  already_registered, empty, register, transition, lookup_state, registers, transitions,
}
use free_whisper.Application.Registry
use free_whisper.Application.Registry.Isolation.{granted, transition_isolated}

cancelled_never_records_example :
    (commit_preparation
      (Coordinator.run
        (cancel_capture (at (CapturePhase.preparing 1))).0
        (reserve 2 ∷ commit 2 ∷ []))
      1).1
    ≢ ok PreparationCommit.recording
cancelled_never_records_example =
    cancelled_never_records 1 (reserve 2 ∷ commit 2 ∷ []) ((λ e. ground arith), ((λ e. cc), tt))

run_keeps_finalizing_example :
    Coordinator.run (at (CapturePhase.finalizing 1)) (cancel ∷ reserve 2 ∷ release 2 ∷ [])
    ≡ at (CapturePhase.finalizing 1)
run_keeps_finalizing_example =
    run_keeps_finalizing (cancel ∷ reserve 2 ∷ release 2 ∷ []) 1
      ((λ e. cc), ((λ e. cc), ((λ e. ground arith), tt)))

recording_was_prepared_example :
    Memᴰ (reserve 2) (reserve 2 ∷ commit 2 ∷ begin ∷ [])
    × Memᴰ (commit 2) (reserve 2 ∷ commit 2 ∷ begin ∷ [])
unfolding Coordinator.run Coordinator.step
recording_was_prepared_example =
    recording_was_prepared (reserve 2 ∷ commit 2 ∷ begin ∷ []) 2 (inr refl)

abbrev history : List (Queue.Call ℕ)
history = enqueues 1 ∷ enqueues 2 ∷ enqueues 3 ∷ dequeues ∷ enqueues 4 ∷ []

run_is_fifo_example :
    let h = Queue.run (start 2) history in
    (h.queue.capacity ≡ 2)
    × (length h.queue.entries ≤ 2)
    × (h.accepted ≡ h.served ++ h.queue.entries)
run_is_fifo_example = run_is_fifo 2 history

abbrev full_queue : Queue.BoundedJobQueue ℕ
full_queue = record { capacity = 1; entries = 5 ∷ [] }

transition_isolated_example :
    let r = Registry.run empty (registers 1 ∷ registers 2 ∷ []) in
    lookup_state (transition r 1 2 preparing_recording).0 1 ≡ (
      if 1 == 1 && granted (lookup_state r 1) 1 2 preparing_recording
      then some preparing_recording
      else lookup_state r 1)
transition_isolated_example =
    transition_isolated (registers 1 ∷ registers 2 ∷ []) 1 2 preparing_recording 1
