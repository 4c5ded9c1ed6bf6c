-- ===== src/Application/Registry.antt =====
-- crates/application/src/lib.rs, `JobStateRegistry`: the `HashMap` from job ids to state machines
-- is an association list with one entry for each key.
pub mod Isolation
use free_whisper.Prelude.{
  ℕ, List, [], ◌∷◌, Option, none, some, ◌==◌, if◌then◌else◌, Result, ok, err, map_err,
}
use free_whisper.Domain.Job.{AppState, StateTransitionError, JobStateMachine, new, transition_for}

pub record JobStateRegistry : Type 0 where
  pub jobs : List (ℕ × JobStateMachine)

pub data JobRegistryError : Type 0 where
  already_registered unknown_job : ℕ → JobRegistryError
  state : StateTransitionError → JobRegistryError

-- `HashMap::get`, `insert` and a write through `get_mut`.
unfoldable pub get : ℕ → List (ℕ × JobStateMachine) → Option JobStateMachine
get k [] = none
get k ((j, m) ∷ rest) = if j == k then some m else get k rest

unfoldable pub insert :
    ℕ → JobStateMachine → List (ℕ × JobStateMachine) → List (ℕ × JobStateMachine)
insert k v [] = (k, v) ∷ []
insert k v ((j, m) ∷ rest) = if j == k then (k, v) ∷ rest else (j, m) ∷ insert k v rest

unfoldable pub empty : JobStateRegistry
empty = record { jobs = [] }

register_if :
    Option JobStateMachine
    → JobStateRegistry
    → ℕ
    → JobStateRegistry × Result JobRegistryError (Unit {0})
register_if (some _) self job_id = (self, err (already_registered job_id))
register_if none self job_id = (record { jobs = insert job_id (new job_id) self.jobs }, ok tt)

unfoldable pub register :
    JobStateRegistry → ℕ → JobStateRegistry × Result JobRegistryError (Unit {0})
unfolding register_if
register self job_id = register_if (get job_id self.jobs) self job_id

transition_if :
    Option JobStateMachine
    → JobStateRegistry
    → (job_id requested_by : ℕ) → AppState
    → JobStateRegistry × Result JobRegistryError (Unit {0})
transition_if none self job_id requested_by next = (self, err (unknown_job job_id))
transition_if (some machine) self job_id requested_by next =
    let (machine', result) = transition_for machine requested_by next in
    (record { jobs = insert job_id machine' self.jobs }, map_err state result)

unfoldable pub transition :
    JobStateRegistry
    → (job_id requested_by : ℕ) → AppState
    → JobStateRegistry × Result JobRegistryError (Unit {0})
unfolding transition_if
transition self job_id requested_by next =
    transition_if (get job_id self.jobs) self job_id requested_by next

state_of : Option JobStateMachine → Option AppState
state_of none = none
state_of (some machine) = some machine.state

unfoldable pub lookup_state : JobStateRegistry → ℕ → Option AppState
unfolding state_of
lookup_state self job_id = state_of (get job_id self.jobs)

pub data Call : Type 0 where
  registers : (job_id : ℕ) → Call
  transitions : (job_id requested_by : ℕ) → AppState → Call

unfoldable pub step : JobStateRegistry → Call → JobStateRegistry
unfolding register transition
step self (registers job_id) = (register self job_id).0
step self (transitions job_id requested_by next) = (transition self job_id requested_by next).0

unfoldable pub run : JobStateRegistry → List Call → JobStateRegistry
run self [] = self
run self (call ∷ calls) = run (step self call) calls
