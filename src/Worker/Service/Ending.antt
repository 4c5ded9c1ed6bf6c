-- ===== src/Worker/Service/Ending.antt =====
-- The last steps of a transcription whose token is cancelled, and those of the cancellation.
use free_whisper.Prelude.{ℕ, ◌≡◌, refl, ap, ◌∙◌, ◌⊎◌, inl, inr, true, List, [], ◌∷◌, ==_self, some}
use free_whisper.Worker.Service.{
  WorkerState, Running, TranscribePhase, running, dropping, unregistering, checking, failed,
  TranscribeCall, CancelCall, lookup, was_cancelled, after_check, transcribe, cancel, seeking,
  found, Worker, Move, transcribes, cancels, step, run,
}
use free_whisper.Worker.Service.Token.{
  Armed, Doomed, transcribe-is_cancelled, cancel-is_cancelled, fires,
}

-- The four steps from the engine's answer on.
abbrev pub to_end : (t : ℕ) → List Move
to_end t = transcribes t ∷ transcribes t ∷ transcribes t ∷ transcribes t ∷ []

module _ {A : Type 0} (calls : ℕ → TranscribeCall A) (cancel_calls : ℕ → CancelCall) where
  -- Where it stands, counted from the end.
  module _ (t : ℕ) (r : Running) where
    abbrev pub own : Worker A → Worker A
    own worker = step calls cancel_calls worker (transcribes t)

    abbrev Stands : TranscribePhase A → Worker A → Type 0
    Stands p worker = (worker.state.is_cancelled r.token ≡ true) × (worker.transcriptions t ≡ p)

    abbrev pub Ended : Worker A → Type 0
    Ended worker = worker.transcriptions t ≡ failed (was_cancelled r.request_id)

    own_phase :
        (worker : Worker A) (p : TranscribePhase A)
        → worker.transcriptions t ≡ p
        → (own worker).transcriptions t ≡ (transcribe worker.state (calls t) p).1
    unfolding step
    own_phase worker p at = rw (==_self t) (ap (λ q. (transcribe worker.state (calls t) q).1) at)

    own_cancelled :
        (worker : Worker A)
        → worker.state.is_cancelled r.token ≡ true
        → (own worker).state.is_cancelled r.token ≡ true
    unfolding step
    own_cancelled worker h =
        ap (λ f. f r.token)
          (transcribe-is_cancelled worker.state (calls t) (worker.transcriptions t))
        ∙ h

    advances :
        (worker : Worker A) (p q : TranscribePhase A)
        → (transcribe worker.state (calls t) p).1 ≡ q
        → Stands p worker
        → Stands q (own worker)
    advances worker p q e (h, at) = (own_cancelled worker h, own_phase worker p at ∙ e)

    stays : (worker : Worker A) → Ended worker → Ended (own worker)
    unfolding transcribe
    stays worker h = own_phase worker (failed (was_cancelled r.request_id)) h

    last : (worker : Worker A) → Stands (checking r) worker ⊎ Ended worker → Ended (own worker)
    unfolding transcribe after_check
    last worker (inl (h, at)) = own_phase worker (checking r) at ∙ rw h refl
    last worker (inr h) = stays worker h

    third :
        (worker : Worker A)
        → Stands (unregistering r) worker ⊎ Stands (checking r) worker ⊎ Ended worker
        → Stands (checking r) (own worker) ⊎ Ended (own worker)
    unfolding transcribe
    third worker (inl h) = inl (advances worker (unregistering r) (checking r) refl h)
    third worker (inr h) = inr (last worker h)

    second :
        (worker : Worker A)
        → Stands (dropping r) worker
          ⊎ Stands (unregistering r) worker
          ⊎ Stands (checking r) worker
          ⊎ Ended worker
        → Stands (unregistering r) (own worker)
          ⊎ Stands (checking r) (own worker)
          ⊎ Ended (own worker)
    unfolding transcribe
    second worker (inl h) = inl (advances worker (dropping r) (unregistering r) refl h)
    second worker (inr h) = inr (third worker h)

    first :
        (worker : Worker A)
        → Stands (running r) worker
          ⊎ Stands (dropping r) worker
          ⊎ Stands (unregistering r) worker
          ⊎ Stands (checking r) worker
          ⊎ Ended worker
        → Stands (dropping r) (own worker)
          ⊎ Stands (unregistering r) (own worker)
          ⊎ Stands (checking r) (own worker)
          ⊎ Ended (own worker)
    unfolding transcribe
    first worker (inl h) = inl (advances worker (running r) (dropping r) refl h)
    first worker (inr h) = inr (second worker h)

    places :
        (worker : Worker A)
        → Doomed t r worker
        → Stands (running r) worker
          ⊎ Stands (dropping r) worker
          ⊎ Stands (unregistering r) worker
          ⊎ Stands (checking r) worker
          ⊎ Ended worker
    places worker (inr h) = inr (inr (inr (inr h)))
    places worker (inl (h, inl e)) = inl (h, e)
    places worker (inl (h, inr (inl e))) = inr (inl (h, e))
    places worker (inl (h, inr (inr (inl e)))) = inr (inr (inl (h, e)))
    places worker (inl (h, inr (inr (inr e)))) = inr (inr (inr (inl (h, e))))

    pub to_end-Ended :
        (worker : Worker A) → Doomed t r worker → Ended (run calls cancel_calls worker (to_end t))
    unfolding run
    to_end-Ended worker h =
        last (own (own (own worker)))
          (third (own (own worker)) (second (own worker) (first worker (places worker h))))

  seek_finds :
      (state : WorkerState) (call : CancelCall) (token : ℕ)
      → lookup state.active call.id ≡ some token
      → (cancel state call seeking).1 ≡ found token
  unfolding cancel
  seek_finds state call token h = rw (h, cancel) refl

  pub looks :
      (worker : Worker A) (c token : ℕ)
      → worker.cancellations c ≡ seeking
      → lookup worker.state.active (cancel_calls c).id ≡ some token
      → (step calls cancel_calls worker (cancels c)).cancellations c ≡ found token
  unfolding step
  looks worker c token at h = rw (==_self c) (
      ap (λ p. (cancel worker.state (cancel_calls c) p).1) at
      ∙ seek_finds worker.state (cancel_calls c) token h)

  pub arms :
      (c token : ℕ) (worker : Worker A)
      → Armed c token worker
      → (step calls cancel_calls worker (cancels c)).state.is_cancelled token ≡ true
  unfolding step
  arms c token worker (inl at) =
      ap (λ p. (cancel worker.state (cancel_calls c) p).0.is_cancelled token) at
      ∙ fires worker.state (cancel_calls c) token
  arms c token worker (inr h) =
      cancel-is_cancelled worker.state (cancel_calls c) (worker.cancellations c) token h
