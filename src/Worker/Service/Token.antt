-- ===== src/Worker/Service/Token.antt =====
-- A cancelled token stays so, on the way to it and after it.
use free_whisper.Prelude.{
  ℕ, ◌≡◌, refl, sym, subst, ap, ◌∙◌, ◌⊎◌, inl, inr, true, List, [], ◌∷◌, ◌==◌, ==_self, arith,
  Bool-cases,
}
use free_whisper.Worker.Service.{
  WorkerState, Running, TranscribePhase, idle, limiting, acquiring, reading, registering, running,
  dropping, unregistering, checking, refusing, failed, done, TranscribeCall, CancelCall,
  was_cancelled, after_check, transcribe, cancel, cancel_token, CancelPhase, waiting, seeking,
  found, asking, confirmed, unanswered, acquire_request, Worker, Move, transcribes, cancels, step,
  run,
}
use free_whisper.Worker.Service.Fits.{acquire_free, acquire_taken}

-- From its registration until it looks at its token.
abbrev pub IsUndecided : {A : Type 0} → Running → TranscribePhase A → Type 0
IsUndecided r p = (p ≡ running r) ⊎ (p ≡ dropping r) ⊎ (p ≡ unregistering r) ⊎ (p ≡ checking r)

pub cancel-is_cancelled :
    (state : WorkerState) (call : CancelCall) (p : CancelPhase) (token : ℕ)
    → state.is_cancelled token ≡ true
    → (cancel state call p).0.is_cancelled token ≡ true
unfolding cancel cancel_token
cancel-is_cancelled state call waiting token h = h
cancel-is_cancelled state call seeking token h = h
cancel-is_cancelled state call (found other) token h = elim (Bool-cases (token == other)) [
  | inl e ↦ rw e refl
  | inr e ↦ rw e h
]
cancel-is_cancelled state call asking token h = h
cancel-is_cancelled state call confirmed token h = h
cancel-is_cancelled state call (unanswered e) token h = h

pub fires :
    (state : WorkerState) (call : CancelCall) (token : ℕ)
    → (cancel state call (found token)).0.is_cancelled token ≡ true
unfolding cancel cancel_token
fires state call token = rw (==_self token) refl

module _ {A : Type 0} where
  -- The cancellation has the token, or has cancelled it.
  abbrev pub Armed : (c token : ℕ) → Worker A → Type 0
  Armed c token worker =
      (worker.cancellations c ≡ found token) ⊎ (worker.state.is_cancelled token ≡ true)

  -- The transcription has the token before it, and it is cancelled, or it has answered so.
  abbrev pub Doomed : (t : ℕ) → Running → Worker A → Type 0
  Doomed t r worker =
      ((worker.state.is_cancelled r.token ≡ true) × IsUndecided r (worker.transcriptions t))
      ⊎ (worker.transcriptions t ≡ failed (was_cancelled r.request_id))

  pub transcribe-is_cancelled :
      (state : WorkerState) (call : TranscribeCall A) (p : TranscribePhase A)
      → (transcribe state call p).0.is_cancelled ≡ state.is_cancelled
  unfolding transcribe acquire_request
  transcribe-is_cancelled state call idle = refl
  transcribe-is_cancelled state call limiting = refl
  transcribe-is_cancelled state call acquiring = elim (Bool-cases state.permit_free) [
    | inl free ↦ ap (λ x. x.0.is_cancelled) (acquire_free state free)
    | inr taken ↦ ap (λ x. x.0.is_cancelled) (acquire_taken state taken)
  ]
  transcribe-is_cancelled state call reading = refl
  transcribe-is_cancelled state call (registering id) = refl
  transcribe-is_cancelled state call (running r) = refl
  transcribe-is_cancelled state call (dropping r) = refl
  transcribe-is_cancelled state call (unregistering r) = refl
  transcribe-is_cancelled state call (checking r) = refl
  transcribe-is_cancelled state call (refusing e) = refl
  transcribe-is_cancelled state call (failed e) = refl
  transcribe-is_cancelled state call (done a) = refl

  transcribe-IsUndecided :
      (state : WorkerState) (call : TranscribeCall A) (r : Running) (p : TranscribePhase A)
      → state.is_cancelled r.token ≡ true
      → IsUndecided r p
      → IsUndecided r (transcribe state call p).1
        ⊎ ((transcribe state call p).1 ≡ failed (was_cancelled r.request_id))
  unfolding transcribe after_check
  transcribe-IsUndecided state call r p h (inl e) = inl (inr (inl (rw e refl)))
  transcribe-IsUndecided state call r p h (inr (inl e)) = inl (inr (inr (inl (rw e refl))))
  transcribe-IsUndecided state call r p h (inr (inr (inl e))) = inl (inr (inr (inr (rw e refl))))
  transcribe-IsUndecided state call r p h (inr (inr (inr e))) = inr (rw e (rw h refl))

module _ {A : Type 0} (calls : ℕ → TranscribeCall A) (cancel_calls : ℕ → CancelCall) where
  step-Armed :
      (c token : ℕ) (worker : Worker A) (move : Move)
      → Armed c token worker
      → Armed c token (step calls cancel_calls worker move)
  unfolding step
  step-Armed c token worker (transcribes n) (inl h) = inl h
  step-Armed c token worker (transcribes n) (inr h) = inr (
      ap (λ f. f token) (transcribe-is_cancelled worker.state (calls n) (worker.transcriptions n))
      ∙ h)
  step-Armed c token worker (cancels n) (inr h) =
      inr (cancel-is_cancelled worker.state (cancel_calls n) (worker.cancellations n) token h)
  step-Armed c token worker (cancels n) (inl h) = elim (Bool-cases (c == n)) [
    | inl e ↦
        let same : c ≡ n = ground (arith, e) in
        let at : worker.cancellations n ≡ found token = ap worker.cancellations (sym same) ∙ h in
        inr (
          subst (λ p. (cancel worker.state (cancel_calls n) p).0.is_cancelled token ≡ true) (sym at)
            (fires worker.state (cancel_calls n) token))
    | inr e ↦ inl (rw e h)
  ]

  own_Doomed :
      (t : ℕ) (r : Running) (worker : Worker A)
      → Doomed t r worker
      → ((transcribe worker.state (calls t) (worker.transcriptions t)).0.is_cancelled r.token
            ≡ true)
          × IsUndecided r (transcribe worker.state (calls t) (worker.transcriptions t)).1
        ⊎ ((transcribe worker.state (calls t) (worker.transcriptions t)).1
            ≡ failed (was_cancelled r.request_id))
  unfolding transcribe
  own_Doomed t r worker (inr h) = inr (ap (λ p. (transcribe worker.state (calls t) p).1) h)
  own_Doomed t r worker (inl (h, u)) =
      elim (transcribe-IsUndecided worker.state (calls t) r (worker.transcriptions t) h u) [
        | inl still ↦ inl (
          ap (λ f. f r.token)
                (transcribe-is_cancelled worker.state (calls t) (worker.transcriptions t))
              ∙ h,
          still,
        )
        | inr over ↦ inr over
      ]

  step-Doomed :
      (t : ℕ) (r : Running) (worker : Worker A) (move : Move)
      → Doomed t r worker
      → Doomed t r (step calls cancel_calls worker move)
  unfolding step transcribe
  step-Doomed t r worker (cancels n) (inr h) = inr h
  step-Doomed t r worker (cancels n) (inl (h, u)) =
      inl (cancel-is_cancelled worker.state (cancel_calls n) (worker.cancellations n) r.token h, u)
  step-Doomed t r worker (transcribes n) h = elim (Bool-cases (t == n)) [
    | inl e ↦
        let same : t ≡ n = ground (arith, e) in rw (sym same, ==_self t) (own_Doomed t r worker h)
    | inr e ↦ rw (e, transcribe-is_cancelled worker.state (calls n) (worker.transcriptions n)) h
  ]

  pub run-Doomed :
      (t : ℕ) (r : Running) (worker : Worker A) (moves : List Move)
      → Doomed t r worker
      → Doomed t r (run calls cancel_calls worker moves)
  unfolding run
  run-Doomed t r worker [] h = h
  run-Doomed t r worker (move ∷ moves) h =
      run-Doomed t r (step calls cancel_calls worker move) moves (step-Doomed t r worker move h)

  pub run-Armed :
      (c token : ℕ) (worker : Worker A) (moves : List Move)
      → Armed c token worker
      → Armed c token (run calls cancel_calls worker moves)
  unfolding run
  run-Armed c token worker [] h = h
  run-Armed c token worker (move ∷ moves) h =
      run-Armed c token (step calls cancel_calls worker move) moves
        (step-Armed c token worker move h)
