-- ===== src/Application/Queue.antt =====
-- crates/application/src/lib.rs, `BoundedJobQueue<T>`: a `VecDeque` with its front at the head.
pub mod Fifo
use free_whisper.Prelude.{
  ℕ, Bool, List, [], ◌∷◌, ◌++◌, Option, none, some, leb, if◌then◌else◌, length, is_empty, Result,
  ok, err,
}

pub record BoundedJobQueue (T : Type 0) : Type 0 where
  pub capacity : ℕ
  pub entries : List T

pub data QueueError : Type 0 where
  full : (capacity : ℕ) → QueueError

module _ {T : Type 0} where
  unfoldable pub new : ℕ → BoundedJobQueue T
  new capacity = record { capacity = capacity; entries = [] }

  unfoldable pub enqueue : BoundedJobQueue T → T → BoundedJobQueue T × Result QueueError (Unit {0})
  enqueue self entry =
      if leb self.capacity (length self.entries)
      then (self, err (full self.capacity))
      else (record self { entries = self.entries ++ entry ∷ [] }, ok tt)

  pop_front : List T → List T × Option T
  pop_front [] = ([], none)
  pop_front (x ∷ xs) = (xs, some x)

  unfoldable pub dequeue : BoundedJobQueue T → BoundedJobQueue T × Option T
  unfolding pop_front
  dequeue self =
      let (entries, entry) = pop_front self.entries in (record self { entries = entries }, entry)

  unfoldable pub len : BoundedJobQueue T → ℕ
  len self = length self.entries

pub data Call (T : Type 0) : Type 0 where
  enqueues : T → Call T
  dequeues : Call T

-- A history of calls: the queue after it, what it accepted and what it handed out, in order.
pub record History (T : Type 0) : Type 0 where
  pub queue : BoundedJobQueue T
  pub accepted : List T
  pub served : List T

module _ {T : Type 0} where
  note_accepted : Result QueueError (Unit {0}) → T → List T → List T
  note_accepted (ok _) entry accepted = accepted ++ entry ∷ []
  note_accepted (err _) entry accepted = accepted

  note_served : Option T → List T → List T
  note_served none served = served
  note_served (some entry) served = served ++ entry ∷ []

  unfoldable pub step : History T → Call T → History T
  unfolding enqueue dequeue note_accepted note_served
  step h (enqueues entry) =
      let (queue, result) = enqueue h.queue entry in
      record { queue = queue; accepted = note_accepted result entry h.accepted; served = h.served }
  step h dequeues =
      let (queue, entry) = dequeue h.queue in
      record { queue = queue; accepted = h.accepted; served = note_served entry h.served }

  unfoldable pub run : History T → List (Call T) → History T
  run h [] = h
  run h (call ∷ calls) = run (step h call) calls

  unfoldable pub start : ℕ → History T
  unfolding new
  start capacity = record { queue = new capacity; accepted = []; served = [] }
