-- ===== src/Worker/Limiter/Tests.antt =====
-- Requests at three instants, two of them within a minute.
use free_whisper.Prelude.{
  ℕ, ◌≡◌, ◌≤◌, List, [], ◌∷◌, arith, filter, ltb, if◌then◌else◌, length, ok, err,
}
use free_whisper.Worker.Limiter.{check_rate_limit, too_many, run}
use free_whisper.Worker.Limiter.Window.{is_recent, end, run_is_window}

abbrev calls : List ℕ
calls = 1000 ∷ 50000 ∷ 70000 ∷ []

run_is_window_example :
    let (timestamps, accepted) = run [] [] calls in
    (length (filter (is_recent (end 0 calls)) accepted) ≤ 20)
    × ((check_rate_limit timestamps 80000).1
        ≡ (if ltb (length (filter (is_recent 80000) accepted)) 20 then ok tt else err too_many))
run_is_window_example = run_is_window calls 80000 (omega arith) (omega arith)
