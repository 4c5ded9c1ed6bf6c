-- ===== src/Application/Coordinator/Ownership.antt =====
-- Which calls can take the microphone slot, hand it on and give it back.
use free_whisper.Prelude.{
  ℕ, ◌≡◌, refl, sym, ◌≢◌, ◌⊎◌, inl, inr, List, [], ◌∷◌, Memᴰ, arith, ◌==◌, ok, err, All, some, Bool,
  true, false, ==_self,
}
use free_whisper.Application.Coordinator.{
  CapturePhase, idle, PreparationCommit, RecordingCoordinator, at, job_id, reserve_start,
  commit_preparation, cancel_capture, capture_busy, Call, reserve, commit, release, step, run,
}

-- The slot is granted exactly when it is free: the reservation takes an idle slot for its job, and
-- on a slot that a job holds it fails, names that job and changes nothing.
pub reserve_start_cases :
    (c : RecordingCoordinator) (j : ℕ)
    → ((c.capture ≡ idle) × (reserve_start c j ≡ (at (CapturePhase.preparing j), ok tt)))
      ⊎ ((active : ℕ) × (job_id c.capture ≡ some active)
          × (reserve_start c j ≡ (c, err (capture_busy active c.capture))))
unfolding reserve_start job_id
reserve_start_cases c j = by_phase c.capture
  where
    by_phase :
        (p : CapturePhase)
        → ((p ≡ idle) × (reserve_start (at p) j ≡ (at (CapturePhase.preparing j), ok tt)))
          ⊎ ((active : ℕ) × (job_id p ≡ some active)
              × (reserve_start (at p) j ≡ (at p, err (capture_busy active p))))
    by_phase idle = inl (refl, refl)
    by_phase (CapturePhase.preparing a) = inr (a, refl, refl)
    by_phase (CapturePhase.recording a) = inr (a, refl, refl)
    by_phase (CapturePhase.finalizing a) = inr (a, refl, refl)

-- A job holds the slot after a call only if it held it before, or the call reserves for it.
step_holder :
    (p : CapturePhase) (call : Call) (j : ℕ)
    → job_id (step (at p) call).capture ≡ some j
    → (job_id p ≡ some j) ⊎ (call ≡ reserve j)
unfolding step job_id
step_holder idle call j h = ground arith
step_holder p call j h = ground arith

run_not_holder :
    (c : RecordingCoordinator) (calls : List Call) (j : ℕ)
    → All (λ call. call ≢ reserve j) calls
    → job_id c.capture ≢ some j
    → job_id (run c calls).capture ≢ some j
unfolding run
run_not_holder c [] j h free = free
run_not_holder c (call ∷ calls) j h free = run_not_holder (step c call) calls j h.1 λ held.
    elim (step_holder c.capture call j held) [
      | inl before ↦ free before
      | inr reserves ↦ h.0 reserves
    ]

commit_needs_holder :
    (c : RecordingCoordinator) (j : ℕ)
    → job_id c.capture ≢ some j
    → (commit_preparation c j).1 ≢ ok PreparationCommit.recording
unfolding commit_preparation job_id
commit_needs_holder c j free started = ground arith

-- A capture that was cancelled before its preparation ended never records: after the
-- cancellation of the preparing job `j`, and any calls that do not reserve for `j`, the commit of
-- `j` does not start a recording.
pub cancelled_never_records :
    (j : ℕ) (calls : List Call)
    → All (λ call. call ≢ reserve j) calls
    → (commit_preparation (run (cancel_capture (at (CapturePhase.preparing j))).0 calls) j).1
      ≢ ok PreparationCommit.recording
unfolding cancel_capture job_id
cancelled_never_records j calls h =
    commit_needs_holder _ j (run_not_holder (at idle) calls j h (λ e. cc))

step_keeps_finalizing :
    (call : Call) (j : ℕ)
    → call ≢ release j
    → step (at (CapturePhase.finalizing j)) call ≡ at (CapturePhase.finalizing j)
unfolding step
step_keeps_finalizing call j h = ground arith

-- Once job `j` is being finalized, its owner alone gives the slot back: no sequence of calls
-- without `release_finalization` for `j`, cancellations included, changes the coordinator.
pub run_keeps_finalizing :
    (calls : List Call) (j : ℕ)
    → All (λ call. call ≢ release j) calls
    → run (at (CapturePhase.finalizing j)) calls ≡ at (CapturePhase.finalizing j)
unfolding run
run_keeps_finalizing [] j h = refl
run_keeps_finalizing (call ∷ calls) j h =
    rw (step_keeps_finalizing call j h.0) (run_keeps_finalizing calls j h.1)

abbrev is_recording : CapturePhase → ℕ → Bool
is_recording (CapturePhase.recording a) j = a == j
is_recording (CapturePhase.finalizing a) j = a == j
is_recording idle j = false
is_recording (CapturePhase.preparing a) j = false

step_recording :
    (p : CapturePhase) (call : Call) (j : ℕ)
    → is_recording (step (at p) call).capture j ≡ true
    → (is_recording p j ≡ true) ⊎ ((p ≡ CapturePhase.preparing j) × (call ≡ commit j))
unfolding step
step_recording idle call j h = ground arith
step_recording p call j h = ground arith

run_recording :
    (c : RecordingCoordinator) (calls : List Call) (j : ℕ)
    → is_recording (run c calls).capture j ≡ true
    → (is_recording c.capture j ≡ true) ⊎ Memᴰ (commit j) calls
unfolding run
run_recording c [] j h = inl h
run_recording c (call ∷ calls) j h = elim (run_recording (step c call) calls j h) [
  | inr later ↦ inr (Memᴰ.tail later)
  | inl now ↦ elim (step_recording c.capture call j now) [
    | inl before ↦ inl before
    | inr (_, e) ↦ inr (Memᴰ.head (sym e))
  ]
]

run_holder :
    (c : RecordingCoordinator) (calls : List Call) (j : ℕ)
    → job_id (run c calls).capture ≡ some j
    → (job_id c.capture ≡ some j) ⊎ Memᴰ (reserve j) calls
unfolding run
run_holder c [] j h = inl h
run_holder c (call ∷ calls) j h = elim (run_holder (step c call) calls j h) [
  | inr later ↦ inr (Memᴰ.tail later)
  | inl now ↦ elim (step_holder c.capture call j now) [
    | inl before ↦ inl before
    | inr e ↦ inr (Memᴰ.head (sym e))
  ]
]

-- From the idle slot, a job is recorded or finalized only after a reservation and a commit of
-- its own, whatever other calls are made in between.
pub recording_was_prepared :
    (calls : List Call) (j : ℕ)
    → (let p = (run (at idle) calls).capture in
        (p ≡ CapturePhase.recording j) ⊎ (p ≡ CapturePhase.finalizing j))
    → Memᴰ (reserve j) calls × Memᴰ (commit j) calls
unfolding job_id
recording_was_prepared calls j h = (
  elim (run_holder (at idle) calls j (ground arith)) [ inl e ↦ cc | inr m ↦ m ],
  elim (run_recording (at idle) calls j (ground (arith, ==_self j))) [ inl e ↦ cc | inr m ↦ m ],
)
