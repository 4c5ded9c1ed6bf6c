-- ===== src/Desktop/Slot/Tests.antt =====
-- Two jobs at the slot: the second waits, and takes the slot when the first gives it back.
use free_whisper.Prelude.{ℕ, ◌≡◌, refl, true, false, List, [], ◌∷◌, ◌++◌, some}
use free_whisper.Desktop.Slot.{
  Action, advances, cancels, releases, run, start, step, advance, clear_queued_job,
  clear_processing, after_clear,
}
use free_whisper.Desktop.Slot.Exclusion.{
  is_queued, owns, is_clean, has_slot, is_released, queue_is_owned,
}
use free_whisper.Desktop.Slot.Ownership.{slot_is_exclusive}

-- Job 1 takes the slot; job 2 finds it taken, queues and waits.
abbrev second_waits : List Action
second_waits =
    advances 1 ∷ advances 1 ∷ advances 1 ∷ advances 2 ∷ advances 2 ∷ advances 2 ∷ advances 2 ∷ []

-- Job 1 gives the slot back, job 2 wakes up and takes it, and settles.
abbrev second_takes : List Action
second_takes = second_waits ++ advances 1 ∷ advances 2 ∷ advances 2 ∷ advances 2 ∷ advances 2 ∷ []

second_has_it : (run start second_takes).slots.processing ≡ some 2
unfolding run start step advance clear_queued_job clear_processing after_clear
second_has_it = refl

-- When the cancel command releases job 1's slot before job 1's task has ended, job 1's own release
-- fails.
own_release_fails :
    is_released ((run start (second_waits ++ releases 1 ∷ advances 1 ∷ [])).phases 1) ≡ false
unfolding run start step advance clear_queued_job clear_processing after_clear
own_release_fails = refl

-- When the cancel command releases it before job 2 has cleared its queue entry, job 2 goes on, and a
-- third job takes the slot beside it.
abbrev beside : List Action
beside =
    second_waits
    ++ advances 1
      ∷ advances 2
      ∷ advances 2
      ∷ advances 2
      ∷ releases 2
      ∷ advances 2
      ∷ advances 3
      ∷ advances 3
      ∷ advances 3
      ∷ []

two_have_the_slot :
    (has_slot ((run start beside).phases 2) ≡ true)
    × (has_slot ((run start beside).phases 3) ≡ true)
unfolding run start step advance clear_queued_job clear_processing after_clear
two_have_the_slot = (refl, refl)

queue_is_owned_example :
    (is_queued ((run start (second_waits ++ cancels ∷ releases 1 ∷ [])).phases 2)
      ≡ owns (run start (second_waits ++ cancels ∷ releases 1 ∷ [])).slots.queued 2)
    × (is_clean ((run start (second_waits ++ cancels ∷ releases 1 ∷ [])).phases 2) ≡ true)
queue_is_owned_example = queue_is_owned (second_waits ++ cancels ∷ releases 1 ∷ []) 2

slot_is_exclusive_example :
    ((job other : ℕ)
      → has_slot ((run start second_takes).phases job) ≡ true
      → has_slot ((run start second_takes).phases other) ≡ true
      → job ≡ other)
    × ((job : ℕ) → is_released ((run start second_takes).phases job) ≡ true)
slot_is_exclusive_example =
    slot_is_exclusive second_takes
      (tt, (tt, (tt, (tt, (tt, (tt, (tt, (tt, (tt, (tt, (tt, (tt, tt))))))))))))
