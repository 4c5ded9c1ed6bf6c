-- ===== src/Worker/Service/Invariant.antt =====
-- What every schedule keeps of the permit and the map.
use free_whisper.Prelude.{
  ℕ, suc, ◌≡◌, refl, sym, subst, ap, ◌∙◌, inl, inr, Bool, true, false, List, [], ◌∷◌, none, Result,
  ok, err, Bool-cases, Result-cases, Text, if◌then◌else◌,
}
use free_whisper.Worker.Failure.{ApiFailure}
use free_whisper.Worker.Limiter.{check_rate_limit}
use free_whisper.Worker.Options.{TranscriptionOptions, validate_options}
use free_whisper.Worker.Service.{
  WorkerState, EngineError, another_is_active, Running, TranscribePhase, idle, limiting, acquiring,
  reading, registering, running, dropping, unregistering, checking, refusing, failed, done,
  TranscribeCall, CancelCall, lookup, is_some, register_request, unregister_request,
  acquire_request, after_body, after_check, authorize, transcribe, cancel, cancel_token,
  CancelPhase, waiting, seeking, found, asking, confirmed, unanswered, Worker, Move, transcribes,
  cancels, set, step, run, start, new,
}
use free_whisper.Worker.Service.Fits.{
  holds, entry, Inv, acquire_free, acquire_taken, plain, same, quiet,
}
use free_whisper.Worker.Service.Changes.{takes, drops, replaces, registers, unregisters}

body_keeps :
    (A : Type 0) (input : Result ApiFailure TranscriptionOptions)
    → (holds (after_body {A = A} input) ≡ true) × (entry (after_body {A = A} input) ≡ none)
unfolding after_body
body_keeps A (err e) = (refl, refl)
body_keeps A (ok options) = elim (Result-cases (validate_options options)) [
  | inl (u, e) ↦ rw (e, after_body) (refl, refl)
  | inr (x, e) ↦ rw (e, after_body) (refl, refl)
]

module _ {A : Type 0} where
  acquired :
      (state : WorkerState) (call : TranscribeCall A)
      (x : WorkerState × Result ApiFailure (Unit {0}))
      → acquire_request state ≡ x
      → transcribe state call acquiring ≡ (x.0, elim x.1 [ ok permit ↦ reading | err e ↦ failed e ])
  unfolding transcribe
  acquired state call x e =
      ap
        (λ y.
          (y.0, elim y.1 as (λ z. TranscribePhase A) [ ok permit ↦ reading | err e ↦ failed e ]))
        e

  register_outcome :
      (id token : ℕ) (b c : Bool) (e : ApiFailure)
      → b ≡ c
      → ◌≡◌ {A = TranscribePhase A}
          (elim (if b then err e else ok token) [
            | ok token ↦ running (record { request_id = id; token = token })
            | err x ↦ refusing x
          ])
          (if c then refusing e else running (record { request_id = id; token = token }))
  register_outcome id token true c e h = rw (sym h) refl
  register_outcome id token false c e h = rw (sym h) refl

  -- Whether the outcome has a permit and a registration.
  after_authorize :
      (state : WorkerState) (call : TranscribeCall A)
      → (holds (transcribe state call idle).1 ≡ false)
        × (entry (transcribe state call idle).1 ≡ none)
  unfolding transcribe
  after_authorize state call = elim (Result-cases (authorize call.header state)) [
    | inl (u, e) ↦ rw (e, transcribe) (refl, refl)
    | inr (x, e) ↦ rw (e, transcribe) (refl, refl)
  ]

  after_limit :
      (state : WorkerState) (call : TranscribeCall A)
      → (holds (transcribe state call limiting).1 ≡ false)
        × (entry (transcribe state call limiting).1 ≡ none)
  unfolding transcribe
  after_limit state call = elim (Result-cases (check_rate_limit state.request_limiter call.now).1) [
    | inl (u, e) ↦ rw (e, transcribe) (refl, refl)
    | inr (x, e) ↦ rw (e, transcribe) (refl, refl)
  ]

  check_ends :
      (cancelled : Bool) (r : Running) (answer : Result EngineError A)
      → (holds (after_check cancelled r answer) ≡ false)
        × (entry (after_check cancelled r answer) ≡ none)
  unfolding after_check
  check_ends true r answer = (refl, refl)
  check_ends false r (ok a) = (refl, refl)
  check_ends false r (err e) = (refl, refl)

  transcribe-Inv :
      (worker : Worker A) (n : ℕ) (call : TranscribeCall A)
      → Inv worker
      → (p : TranscribePhase A) → worker.transcriptions n ≡ p
      → Inv (record worker {
        state = (transcribe worker.state call p).0;
        transcriptions = set n (transcribe worker.state call p).1 worker.transcriptions;
      })
  unfolding transcribe register_request unregister_request
  transcribe-Inv worker n call v idle at =
      let (h, e) = after_authorize worker.state call in
      quiet worker _ n _ refl refl v (λ owner who f. plain owner who _ _ n _ h e)
  transcribe-Inv worker n call v limiting at =
      let (h, e) = after_limit worker.state call in
      quiet worker _ n _ refl refl v (λ owner who f. plain owner who _ _ n _ h e)
  transcribe-Inv worker n call v acquiring at = elim (Bool-cases worker.state.permit_free) [
    | inl free ↦
        subst
          (λ x.
            Inv (record worker { state = x.0; transcriptions = set n x.1 worker.transcriptions }))
          (sym (acquired worker.state call _ (acquire_free worker.state free)))
          (takes worker n v (ap holds at) free)
    | inr taken ↦
        subst
          (λ x.
            Inv (record worker { state = x.0; transcriptions = set n x.1 worker.transcriptions }))
          (sym (acquired worker.state call _ (acquire_taken worker.state taken)))
          (quiet worker worker.state n (failed another_is_active) refl refl v
            (λ owner who f. plain owner who _ _ n _ refl refl))
  ]
  transcribe-Inv worker n call v reading at =
      let (h, e) = body_keeps A call.input in
      quiet worker _ n _ refl refl v
        (λ owner who f. same owner who _ _ n _ _ (h ∙ sym (ap holds at)) (e ∙ sym (ap entry at)) f)
  transcribe-Inv worker n call v (registering id) at =
      elim (Bool-cases (is_some (lookup worker.state.active id))) [
        | inl known ↦
            subst
              (λ q. Inv (record worker {
                state = (register_request worker.state id).0;
                transcriptions = set n q worker.transcriptions;
              }))
              (sym (register_outcome id worker.state.next_token _ true _ known))
              (replaces worker n v id (suc worker.state.next_token) _ (ap holds at) refl)
        | inr new ↦
            subst
              (λ q. Inv (record worker {
                state = (register_request worker.state id).0;
                transcriptions = set n q worker.transcriptions;
              }))
              (sym (register_outcome id worker.state.next_token _ false _ new))
              (registers worker n v id (suc worker.state.next_token) (ap holds at) new)
      ]
  transcribe-Inv worker n call v (running r) at =
      quiet worker _ n _ refl refl v (λ owner who f.
        same owner who _ _ n _ (dropping r) (sym (ap holds at)) (sym (ap entry at)) f)
  transcribe-Inv worker n call v (dropping r) at =
      drops worker n v (unregistering r) (ap holds at) refl (sym (ap entry at))
  transcribe-Inv worker n call v (unregistering r) at =
      unregisters worker n v r (checking r) (ap entry at) (ap holds at) refl refl
  transcribe-Inv worker n call v (checking r) at =
      let (h, e) = check_ends (worker.state.is_cancelled r.token) r call.answer in
      quiet worker _ n _ refl refl v (λ owner who f. plain owner who _ _ n _ h e)
  transcribe-Inv worker n call v (refusing e) at =
      drops worker n v (failed e) (ap holds at) refl (sym (ap entry at))
  transcribe-Inv worker n call v (failed e) at =
      quiet worker _ n _ refl refl v (λ owner who f. plain owner who _ _ n (failed e) refl refl)
  transcribe-Inv worker n call v (done a) at =
      quiet worker _ n _ refl refl v (λ owner who f. plain owner who _ _ n (done a) refl refl)

  cancel-Inv :
      (worker : Worker A) (n : ℕ) (call : CancelCall) (p : CancelPhase)
      → Inv worker
      → Inv (record worker {
        state = (cancel worker.state call p).0;
        cancellations = set n (cancel worker.state call p).1 worker.cancellations;
      })
  unfolding cancel cancel_token
  cancel-Inv worker n call waiting v = record { owner = v.owner; who = v.who; fits = v.fits }
  cancel-Inv worker n call seeking v = record { owner = v.owner; who = v.who; fits = v.fits }
  cancel-Inv worker n call (found token) v = record { owner = v.owner; who = v.who; fits = v.fits }
  cancel-Inv worker n call asking v = record { owner = v.owner; who = v.who; fits = v.fits }
  cancel-Inv worker n call confirmed v = record { owner = v.owner; who = v.who; fits = v.fits }
  cancel-Inv worker n call (unanswered e) v = record { owner = v.owner; who = v.who; fits = v.fits }

module _ {A : Type 0} (calls : ℕ → TranscribeCall A) (cancel_calls : ℕ → CancelCall) where
  step-Inv :
      (worker : Worker A) (move : Move) → Inv worker → Inv (step calls cancel_calls worker move)
  unfolding step
  step-Inv worker (transcribes n) v = transcribe-Inv worker n (calls n) v _ refl
  step-Inv worker (cancels n) v = cancel-Inv worker n (cancel_calls n) _ v

  pub run-Inv :
      (worker : Worker A) (moves : List Move)
      → Inv worker
      → Inv (run calls cancel_calls worker moves)
  unfolding run
  run-Inv worker [] v = v
  run-Inv worker (move ∷ moves) v =
      run-Inv (step calls cancel_calls worker move) moves (step-Inv worker move v)

pub start-Inv : {A : Type 0} (bearer_token : Text) → Inv (start A bearer_token)
unfolding start new
start-Inv bearer_token = record {
  owner = 0;
  who = λ k. 0;
  fits = λ t. plain 0 (λ k. 0) true [] t idle refl refl;
}
