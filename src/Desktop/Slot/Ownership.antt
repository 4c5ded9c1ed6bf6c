-- ===== src/Desktop/Slot/Ownership.antt =====
-- While a job's slot is released by its own task alone, the slot is exclusive.
use free_whisper.Prelude.{
  ℕ, ◌≡◌, refl, sym, ◌∙◌, ◌≢◌, inl, inr, true, List, [], ◌∷◌, Option, none, some, arith, All,
  Bool-cases, ◌==◌,
}
use free_whisper.Desktop.Slot.{
  Slots, Phase, Host, Action, advances, cancels, releases, advance, clear_queued_job,
  clear_processing, cancel_queued_job, after_clear, step, run, start, idle, checking, taking,
  pushing, settling, leaving, waiting, reserved, finished, failed, unreleased,
}
use free_whisper.Desktop.Slot.Exclusion.{
  is_queued, has_slot, owns, is_released, QueueInv, queue_step, start_queue,
}

-- The schedules without a release by the cancel command.
abbrev pub IsOwn : Action → Type 0
IsOwn (releases k) = ⊥
IsOwn (advances k) = Unit {0}
IsOwn cancels = Unit {0}

module _ (state : Slots) (k : ℕ) where
  -- The same for the slot as for the queue.
  abbrev Holds : Phase → Type 0
  Holds phase =
      has_slot phase ≡ owns state.processing k
      → is_queued phase ≡ owns state.queued k
      → let (state', phase') = advance state k phase in
        (has_slot phase' ≡ owns state'.processing k)
        × ((job : ℕ) → job ≢ k → owns state'.processing job ≡ owns state.processing job)

  advance_slot : (phase : Phase) → Holds phase
  unfolding advance clear_queued_job clear_processing after_clear
  advance_slot idle v q = ground arith
  advance_slot (checking queued) v q = ground arith
  advance_slot (taking queued) v q = ground arith
  advance_slot pushing v q = ground arith
  advance_slot settling v q = ground arith
  advance_slot leaving v q = ground arith
  advance_slot waiting v q = ground arith
  advance_slot reserved v q = ground arith
  advance_slot finished v q = ground arith
  advance_slot (failed e) v q = ground arith
  advance_slot (unreleased e) v q = ground arith

  stays_released :
      (phase : Phase)
      → is_released phase ≡ true
      → has_slot phase ≡ owns state.processing k
      → is_released (advance state k phase).1 ≡ true
  unfolding advance clear_queued_job clear_processing after_clear
  stays_released idle c v = ground arith
  stays_released (checking queued) c v = ground arith
  stays_released (taking queued) c v = ground arith
  stays_released pushing c v = ground arith
  stays_released settling c v = ground arith
  stays_released leaving c v = ground arith
  stays_released waiting c v = ground arith
  stays_released reserved c v = ground arith
  stays_released finished c v = ground arith
  stays_released (failed e) c v = c
  stays_released (unreleased e) c v = c

abbrev pub SlotInv : Host → ℕ → Type 0
SlotInv host job =
    (has_slot (host.phases job) ≡ owns host.slots.processing job)
    × (is_released (host.phases job) ≡ true)

slot_step :
    (host : Host) (action : Action)
    → IsOwn action
    → ((job : ℕ) → QueueInv host job)
    → ((job : ℕ) → SlotInv host job)
    → (job : ℕ) → SlotInv (step host action) job
unfolding step cancel_queued_job
slot_step host (releases k) own q v job = elim own [ ]
slot_step host cancels own q v job = ground (arith, v job)
slot_step host (advances k) own q v job =
    let (mine, others) = advance_slot host.slots k (host.phases k) (v k).0 (q k).0 in
    elim (Bool-cases (job == k)) [
      | inl same ↦
          let here : job ≡ k = ground (arith, same) in
          rw same (rw here (mine, stays_released host.slots k (host.phases k) (v k).1 (v k).0))
      | inr other ↦ rw other ((v job).0 ∙ sym (others job (ground (arith, other))), (v job).1)
    ]

run_slot :
    (host : Host) (actions : List Action)
    → All IsOwn actions
    → ((job : ℕ) → QueueInv host job)
    → ((job : ℕ) → SlotInv host job)
    → (job : ℕ) → SlotInv (run host actions) job
unfolding run
run_slot host [] own q v job = v job
run_slot host (action ∷ actions) own q v job =
    run_slot (step host action) actions own.1 (queue_step host action q)
      (slot_step host action own.0 q v) job

start_slot : (job : ℕ) → SlotInv start job
unfolding start
start_slot job = (refl, refl)

-- After any interleaving of the tasks with cancellations of the waiting job, as long as each job's
-- slot is released by its own task alone, no two jobs have the slot at once, and no task fails to
-- release its slot.
pub slot_is_exclusive :
    (actions : List Action)
    → All IsOwn actions
    → ((job other : ℕ)
        → has_slot ((run start actions).phases job) ≡ true
        → has_slot ((run start actions).phases other) ≡ true
        → job ≡ other)
      × ((job : ℕ) → is_released ((run start actions).phases job) ≡ true)
slot_is_exclusive actions own =
    let v = run_slot start actions own start_queue start_slot in
    (
      (λ job other h k. same_owner _ job other (sym (v job).0 ∙ h) (sym (v other).0 ∙ k)),
      (λ job. (v job).1),
    )
  where
    same_owner :
        (o : Option ℕ) (job other : ℕ) → owns o job ≡ true → owns o other ≡ true → job ≡ other
    same_owner none job other h k = cc
    same_owner (some owner) job other h k = ground (arith, h, k)
