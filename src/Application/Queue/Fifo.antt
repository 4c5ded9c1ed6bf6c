-- ===== src/Application/Queue/Fifo.antt =====
-- The queue against its contract: first in, first out, nothing lost, and the capacity kept.
use free_whisper.Prelude.{
  ℕ, ◌≤◌, ◌<◌, ◌≡◌, refl, ◌⊎◌, List, [], ◌∷◌, ◌++◌, arith, length, length-append, append_assoc, sym,
  ◌∙◌, ok, err,
}
use free_whisper.Application.Queue.{
  BoundedJobQueue, full, enqueue, len, Call, enqueues, dequeues, History, step, run, start,
  note_served, pop_front,
}

module _ {T : Type 0} where
  -- What holds between two calls.
  pub record Inv (capacity : ℕ) (h : History T) : Type 0 where
    pub same_capacity : h.queue.capacity ≡ capacity
    pub bounded : length h.queue.entries ≤ capacity
    pub accounted : h.accepted ≡ h.served ++ h.queue.entries

  step-Inv :
      {capacity : ℕ} (h : History T) (call : Call T) → Inv capacity h → Inv capacity (step h call)
  unfolding step
  step-Inv h (enqueues entry) v = record {
    same_capacity = ground (arith, v.same_capacity);
    bounded =
        ground (arith, v.bounded, v.same_capacity, length-append h.queue.entries (entry ∷ []));
    accounted = ground (arith, v.accounted, append_assoc h.served h.queue.entries (entry ∷ []));
  }
  step-Inv h dequeues v = record {
    same_capacity = ground (arith, v.same_capacity);
    bounded = ground (arith, v.bounded);
    accounted = front h.queue.entries h.accepted h.served v.accounted;
  }
    where
      front :
          (es accepted served : List T)
          → accepted ≡ served ++ es
          → accepted ≡ note_served (pop_front es).1 served ++ (pop_front es).0
      front [] accepted served e = e
      front (x ∷ xs) accepted served e = e ∙ sym (append_assoc served (x ∷ []) xs)

  run-Inv :
      {capacity : ℕ} (h : History T) (calls : List (Call T))
      → Inv capacity h
      → Inv capacity (run h calls)
  unfolding run
  run-Inv h [] v = v
  run-Inv h (call ∷ calls) v = run-Inv (step h call) calls (step-Inv h call v)

  -- After any calls on a new queue: its capacity is the one it was made with, it never holds more
  -- entries than that, and what it accepted, in order, is what it handed out followed by what it
  -- still holds. So it is first in, first out, and no accepted entry is lost or made up.
  pub run_is_fifo :
      (capacity : ℕ) (calls : List (Call T))
      → let h = run (start capacity) calls in
        (h.queue.capacity ≡ capacity)
        × (length h.queue.entries ≤ capacity)
        × (h.accepted ≡ h.served ++ h.queue.entries)
  unfolding start
  run_is_fifo capacity calls =
      let v =
        run-Inv (start capacity) calls
          (record { same_capacity = refl; bounded = omega arith; accounted = refl }) in
      (v.same_capacity, v.bounded, v.accounted)

  -- An entry is turned away exactly when the queue is full, with the capacity in the error and the
  -- queue unchanged; otherwise it is the last entry.
  pub enqueue_cases :
      (q : BoundedJobQueue T) (entry : T)
      → ((q.capacity ≤ len q) × (enqueue q entry ≡ (q, err (full q.capacity))))
        ⊎ ((len q < q.capacity)
            × (enqueue q entry ≡ (record q { entries = q.entries ++ entry ∷ [] }, ok tt)))
  unfolding enqueue len
  enqueue_cases q entry = ground arith
