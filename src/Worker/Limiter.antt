-- ===== src/Worker/Limiter.antt =====
-- apps/worker/src/lib.rs, `WorkerState::check_rate_limit`. The deque of instants is a list with
-- its front at the head, and an instant is a number of milliseconds. The lock is never poisoned:
-- no holder of it can panic.
pub mod Window
mod Tests
use free_whisper.Prelude.{
  ℕ, ◌-◌, ◌*◌, Bool, true, false, List, [], ◌∷◌, ◌++◌, none, leb, if◌then◌else◌, length, Result, ok,
  err, is_ok,
}
use free_whisper.Worker.Failure.{ApiFailure, failure, rate_limited}

abbrev pub requests_per_minute : ℕ
requests_per_minute = 20

abbrev pub minute : ℕ
minute = 60000

-- The loop that pops the instants which are a minute old or older.
unfoldable pub pop_expired : (now : ℕ) → List ℕ → List ℕ
pop_expired now [] = []
pop_expired now (t ∷ ts) =
    let rest = pop_expired now ts in if leb minute (now - t) then rest else t ∷ ts

unfoldable pub too_many : ApiFailure
unfolding failure
too_many =
    failure 429 rate_limited "worker accepts at most 20 transcription requests per minute" true none

unfoldable pub check_rate_limit : List ℕ → (now : ℕ) → List ℕ × Result ApiFailure (Unit {0})
unfolding pop_expired
check_rate_limit timestamps now =
    let recent = pop_expired now timestamps in
    if leb requests_per_minute (length recent)
    then (recent, err too_many)
    else (recent ++ now ∷ [], ok tt)

-- The calls of one worker, at the given instants: the deque, and the instants at which a request
-- was admitted, in order.
unfoldable pub run : (timestamps accepted : List ℕ) → List ℕ → List ℕ × List ℕ
run timestamps accepted [] = (timestamps, accepted)
run timestamps accepted (now ∷ later) =
    let (timestamps', result) = check_rate_limit timestamps now in
    run timestamps' (if is_ok result then accepted ++ now ∷ [] else accepted) later
