-- ===== src/Worker/Service/Cancellation.antt =====
-- A running transcription is the only one, and a cancellation reaches it.
use free_whisper.Prelude.{ℕ, ◌≡◌, sym, ap, ◌∙◌, inl, true, List, some, err, Text}
use free_whisper.Worker.Service.{
  Running, failed, TranscribeCall, CancelCall, lookup, was_cancelled, seeking, found,
  acquire_request, another_is_active, Worker, Move, cancels, step, run, start,
}
use free_whisper.Worker.Service.Fits.{holds, entry, acquire_taken}
use free_whisper.Worker.Service.Invariant.{run-Inv, start-Inv}
use free_whisper.Worker.Service.Token.{IsUndecided, run-Armed, run-Doomed}
use free_whisper.Worker.Service.Ending.{to_end, to_end-Ended, looks, arms}

module _ {A : Type 0} (calls : ℕ → TranscribeCall A) (cancel_calls : ℕ → CancelCall)
    (bearer_token : Text) where
  -- The worker after a schedule.
  abbrev pub after : List Move → Worker A
  after moves = run calls cancel_calls (start A bearer_token) moves

  -- After any schedule, at most one transcription has the permit, from the reading of its body on to
  -- the engine's answer and after, until it drops the permit; and while one has, another that asks
  -- for it is refused.
  pub transcription_is_alone :
      (moves : List Move) (t u : ℕ)
      → holds ((after moves).transcriptions t) ≡ true
      → holds ((after moves).transcriptions u) ≡ true
      → (t ≡ u)
        × (acquire_request (after moves).state ≡ ((after moves).state, err another_is_active))
  transcription_is_alone moves t u ht hu =
      let v = run-Inv calls cancel_calls (start A bearer_token) moves (start-Inv bearer_token) in
      (
        ((v.fits t).has_permit ht).0 ∙ sym ((v.fits u).has_permit hu).0,
        acquire_taken _ ((v.fits t).has_permit ht).1,
      )

  -- The worker when `c` has looked at the map, some steps later, and when `c` has gone on.
  abbrev pub looked : (before : List Move) (c : ℕ) → Worker A
  looked before c = step calls cancel_calls (after before) (cancels c)

  abbrev pub meanwhile : (before between : List Move) (c : ℕ) → Worker A
  meanwhile before between c = run calls cancel_calls (looked before c) between

  abbrev pub fired : (before between : List Move) (c : ℕ) → Worker A
  fired before between c = step calls cancel_calls (meanwhile before between c) (cancels c)

  -- Take any schedule after which the transcription `t` has registered and still has the permit, and
  -- an authorized cancellation `c` of its id is about to look at the map. Then `c` finds the token of
  -- `t`. Whatever steps come before `c` goes on to cancel it: if `t` has not looked at its token by
  -- then, it ends with the failure that it was cancelled, whatever steps come after that and
  -- whatever the engine answers, once it has taken its remaining steps, of which there are at most
  -- four.
  pub cancel_reaches_transcription :
      (before between later : List Move) (t c : ℕ) (r : Running)
      → entry ((after before).transcriptions t) ≡ some r
      → holds ((after before).transcriptions t) ≡ true
      → (after before).cancellations c ≡ seeking
      → (cancel_calls c).id ≡ r.request_id
      → IsUndecided r ((meanwhile before between c).transcriptions t)
      → ((looked before c).cancellations c ≡ found r.token)
        × ((run calls cancel_calls
                (run calls cancel_calls (fired before between c) later)
                (to_end t)).transcriptions
              t
            ≡ failed (was_cancelled r.request_id))
  unfolding step
  cancel_reaches_transcription before between later t c r registered held at named undecided =
      let v = run-Inv calls cancel_calls (start A bearer_token) before (start-Inv bearer_token) in
      let finds = looks calls cancel_calls (after before) c r.token at (
        ap (λ k. lookup (after before).state.active k) named
        ∙ (v.fits t).own_token r registered held) in
      let armed =
        arms calls cancel_calls c r.token (meanwhile before between c)
          (run-Armed calls cancel_calls c r.token (looked before c) between (inl finds)) in
      (
        finds,
        to_end-Ended calls cancel_calls t r (run calls cancel_calls (fired before between c) later)
            (run-Doomed calls cancel_calls t r (fired before between c) later
              (inl (armed, undecided))),
      )
