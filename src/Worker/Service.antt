-- ===== src/Worker/Service.antt =====
-- apps/worker/src/lib.rs: the handlers `transcribe` and `cancel` on the shared `WorkerState`. Each
-- access of a handler to the shared state is a step of its own, and so is each wait, so that a
-- schedule may interleave the requests between any two of them. What a request receives from
-- elsewhere comes with it: the authorization header, the time, the outcome of `parse_multipart` and
-- of the engine. A cancellation token is a number, and `is_cancelled` tells whether it was
-- cancelled.
pub mod Cancellation
pub mod Invariant
pub mod Fits
pub mod Changes
pub mod Token
pub mod Ending
mod Tests
use Prim.Native.String.{String}
use free_whisper.Prelude.{
  ℕ, suc, ◌+◌, Bool, true, false, not, List, [], ◌∷◌, ◌++◌, Option, none, some, ◌==◌, if◌then◌else◌,
  filter, find?, Result, ok, err, ok_or, ◌>>=◌, ◌>>◌, refuse_if, map_err, Text, codes, text_eq,
}
use free_whisper.Worker.Failure.{
  ApiFailure, failure, unauthorized, busy, cancelled, not_found, model_not_ready,
  engine_unavailable, engine_protocol, internal,
}
use free_whisper.Worker.Limiter.{check_rate_limit}
use free_whisper.Worker.Options.{TranscriptionOptions, validate_options}

pub data EngineError : Type 0 where
  not_ready unavailable rejected protocol : (message : String) → EngineError
  engine_cancelled : EngineError

unfoldable pub map_engine_error : EngineError → (request_id : Option ℕ) → ApiFailure
map_engine_error (not_ready message) request_id =
    failure 503 model_not_ready message false request_id
map_engine_error engine_cancelled request_id =
    failure 408 cancelled "transcription was cancelled" false request_id
map_engine_error (unavailable message) request_id =
    failure 503 engine_unavailable message true request_id
map_engine_error (protocol message) request_id =
    failure 502 engine_protocol message false request_id
map_engine_error (rejected message) request_id = failure 502 internal message false request_id

-- The engine stands in the answers that the steps are given, and the instance id is only reported.
-- The semaphore's one permit, the map of active cancellations, the tokens handed out, and the
-- limiter's deque.
pub record WorkerState : Type 0 where
  pub bearer_token : Text
  pub permit_free : Bool
  pub active : List (ℕ × ℕ)
  pub next_token : ℕ
  pub is_cancelled : ℕ → Bool
  pub request_limiter : List ℕ

unfoldable pub new : (bearer_token : Text) → WorkerState
new bearer_token = record {
  bearer_token = bearer_token;
  permit_free = true;
  active = [];
  next_token = 0;
  is_cancelled = λ token. false;
  request_limiter = [];
}

unfoldable pub authorize : Option Text → WorkerState → Result ApiFailure (Unit {0})
authorize header state =
    let refused = failure 401 unauthorized "a valid bearer token is required" false none in
    elim header [
      | some received ↦
          refuse_if (not (text_eq received (codes "Bearer " ++ state.bearer_token))) refused
      | none ↦ err refused
    ]

-- `active.get(&id)` and `active.remove(&id)`.
unfoldable pub lookup : List (ℕ × ℕ) → (request_id : ℕ) → Option ℕ
lookup [] request_id = none
lookup ((id, token) ∷ rest) request_id =
    if id == request_id then some token else lookup rest request_id

unfoldable pub remove : (request_id : ℕ) → List (ℕ × ℕ) → List (ℕ × ℕ)
remove request_id active = filter (λ entry. not (entry.0 == request_id)) active

abbrev pub is_some : Option ℕ → Bool
is_some none = false
is_some (some token) = true

-- The new token replaces an earlier one of the same id also where the request is refused.
unfoldable pub register_request : WorkerState → (request_id : ℕ) → WorkerState × Result ApiFailure ℕ
unfolding lookup remove
register_request state request_id =
    let token = state.next_token in
    (
      record state {
        active = (request_id, token) ∷ remove request_id state.active;
        next_token = suc token;
      },
      (if is_some (lookup state.active request_id)
          then err (failure 409 busy "request id is already active" false (some request_id))
          else ok token),
    )

unfoldable pub unregister_request : WorkerState → (request_id : ℕ) → WorkerState
unfolding remove
unregister_request state request_id = record state { active = remove request_id state.active }

pub record Running : Type 0 where
  pub request_id : ℕ
  pub token : ℕ

abbrev pub another_is_active : ApiFailure
another_is_active = failure 429 busy "another transcription is already active" true none

-- `try_acquire_owned`.
unfoldable pub acquire_request : WorkerState → WorkerState × Result ApiFailure (Unit {0})
acquire_request state =
    if state.permit_free
    then (record state { permit_free = false }, ok tt)
    else (state, err another_is_active)

abbrev pub was_cancelled : (request_id : ℕ) → ApiFailure
was_cancelled request_id =
    failure 408 cancelled "transcription was cancelled" false (some request_id)

-- Where a `transcribe` stands: before the authorization, the rate limit, the permit, with the permit
-- before the body has been read, before the registration, before the engine has answered, before
-- the permit is dropped, before the registration is dropped, before the token is looked at. An
-- early return with the permit has to drop it (`refusing`). It ends in an answer or a failure.
pub data TranscribePhase (A : Type 0) : Type 0 where
  idle limiting acquiring reading : TranscribePhase A
  registering : (request_id : ℕ) → TranscribePhase A
  running dropping unregistering checking : Running → TranscribePhase A
  refusing failed : ApiFailure → TranscribePhase A
  done : A → TranscribePhase A

-- What a `transcribe` gets from elsewhere.
pub record TranscribeCall (A : Type 0) : Type 0 where
  pub header : Option Text
  pub now : ℕ
  pub input : Result ApiFailure TranscriptionOptions
  pub answer : Result EngineError A

unfoldable pub after_body :
    {A : Type 0} → Result ApiFailure TranscriptionOptions → TranscribePhase A
after_body input = elim input [
  | err e ↦ refusing e
  | ok options ↦ elim (validate_options options) [
    | err e ↦ refusing e
    | ok valid ↦ registering options.request_id
  ]
]

unfoldable pub after_check :
    {A : Type 0} → (is_cancelled : Bool) → Running → Result EngineError A → TranscribePhase A
unfolding map_engine_error
after_check is_cancelled r answer =
    if is_cancelled then failed (was_cancelled r.request_id) else elim answer [
      | ok response ↦ done response
      | err error ↦ failed (map_engine_error error (some r.request_id))
    ]

-- The next step of a `transcribe`.
unfoldable pub transcribe :
    {A : Type 0}
    → WorkerState
    → TranscribeCall A
    → TranscribePhase A
    → WorkerState × TranscribePhase A
unfolding authorize acquire_request after_body register_request unregister_request after_check
transcribe state call idle =
    (state, elim (authorize call.header state) [ ok authorized ↦ limiting | err e ↦ failed e ])
transcribe state call limiting =
    let (timestamps, limited) = check_rate_limit state.request_limiter call.now in
    (
      record state { request_limiter = timestamps },
      elim limited [ ok admitted ↦ acquiring | err e ↦ failed e ],
    )
transcribe state call acquiring =
    let (state', acquired) = acquire_request state in
    (state', elim acquired [ ok permit ↦ reading | err e ↦ failed e ])
transcribe state call reading = (state, after_body call.input)
transcribe state call (registering request_id) =
    let (state', registered) = register_request state request_id in
    (
      state',
      elim registered [
        | ok token ↦ running (record { request_id = request_id; token = token })
        | err e ↦ refusing e
      ],
    )
transcribe state call (running r) = (state, dropping r)
transcribe state call (dropping r) = (record state { permit_free = true }, unregistering r)
transcribe state call (unregistering r) = (unregister_request state r.request_id, checking r)
transcribe state call (checking r) = (state, after_check (state.is_cancelled r.token) r call.answer)
transcribe state call (refusing e) = (record state { permit_free = true }, failed e)
transcribe state call (failed e) = (state, failed e)
transcribe state call (done response) = (state, done response)

-- Where a `cancel` stands: before the authorization, before the look at the map, before
-- `cancellation.cancel()`, before the engine has answered.
pub data CancelPhase : Type 0 where
  waiting seeking asking confirmed : CancelPhase
  found : (token : ℕ) → CancelPhase
  unanswered : ApiFailure → CancelPhase

pub record CancelCall : Type 0 where
  pub header : Option Text
  pub id : ℕ
  pub answer : Result EngineError (Unit {0})

unfoldable pub cancel_token : WorkerState → (token : ℕ) → WorkerState
cancel_token state token = record state {
  is_cancelled = λ t. if t == token then true else state.is_cancelled t;
}

-- The next step of a `cancel`.
unfoldable pub cancel : WorkerState → CancelCall → CancelPhase → WorkerState × CancelPhase
unfolding authorize lookup cancel_token map_engine_error
cancel state call waiting =
    (state, elim (authorize call.header state) [ ok authorized ↦ seeking | err e ↦ unanswered e ])
cancel state call seeking = (
  state,
  elim (lookup state.active call.id) [
    | none ↦
        unanswered
          (failure 404 not_found "no active transcription has this request id" false (some call.id))
    | some token ↦ found token
  ],
)
cancel state call (found token) = (cancel_token state token, asking)
cancel state call asking = (
  state,
  elim call.answer [
    | ok u ↦ confirmed
    | err error ↦ unanswered (map_engine_error error (some call.id))
  ],
)
cancel state call confirmed = (state, confirmed)
cancel state call (unanswered e) = (state, unanswered e)

-- The worker with the requests that it gets, each with a number of its own.
pub record Worker (A : Type 0) : Type 0 where
  pub state : WorkerState
  pub transcriptions : ℕ → TranscribePhase A
  pub cancellations : ℕ → CancelPhase

-- One step of a request.
pub data Move : Type 0 where
  transcribes cancels : (n : ℕ) → Move

abbrev pub set : {B : Type 0} → (n : ℕ) → B → (ℕ → B) → ℕ → B
set n b f k = if k == n then b else f k

module _ {A : Type 0} (calls : ℕ → TranscribeCall A) (cancel_calls : ℕ → CancelCall) where
  unfoldable pub step : Worker A → Move → Worker A
  unfolding transcribe cancel
  step worker (transcribes n) =
      let (state, phase) = transcribe worker.state (calls n) (worker.transcriptions n) in
      record worker { state = state; transcriptions = set n phase worker.transcriptions }
  step worker (cancels n) =
      let (state, phase) = cancel worker.state (cancel_calls n) (worker.cancellations n) in
      record worker { state = state; cancellations = set n phase worker.cancellations }

  unfoldable pub run : Worker A → List Move → Worker A
  unfolding step
  run worker [] = worker
  run worker (move ∷ moves) = run (step worker move) moves

-- A worker that has just been made.
unfoldable pub start : (A : Type 0) (bearer_token : Text) → Worker A
unfolding new
start A bearer_token = record {
  state = new bearer_token;
  transcriptions = λ n. idle;
  cancellations = λ n. waiting;
}
