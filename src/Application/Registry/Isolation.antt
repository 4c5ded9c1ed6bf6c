-- ===== src/Application/Registry/Isolation.antt =====
-- Every job's state is its own: no call for one job reaches another.
use free_whisper.Prelude.{
  ℕ, ◌≡◌, refl, ◌⊎◌, inl, inr, List, [], ◌∷◌, arith, ◌==◌, ok, err, Option, none, some, Bool, false,
  if◌then◌else◌, Option-cases, ◌&&◌,
}
use free_whisper.Domain.Job.{
  AppState, idle, JobStateMachine, new, transition_for, allows_transition_to,
}
use free_whisper.Application.Registry.{
  JobStateRegistry, already_registered, get, insert, empty, register, transition, lookup_state,
  Call, registers, transitions, step, run,
}

get-insert :
    (k j : ℕ) (v : JobStateMachine) (m : List (ℕ × JobStateMachine))
    → get j (insert k v m) ≡ (if k == j then some v else get j m)
unfolding get insert
get-insert k j v [] = refl
get-insert k j v ((i, w) ∷ m) = ground (arith, get-insert k j v m)

-- Every machine belongs to the job under which it is filed.
abbrev pub Owns : JobStateRegistry → Type 0
Owns r = (j : ℕ) (m : JobStateMachine) → get j r.jobs ≡ some m → m.job_id ≡ j

transition_for-job_id :
    (m : JobStateMachine) (by : ℕ) (next : AppState)
    → (transition_for m by next).0.job_id ≡ m.job_id
unfolding transition_for
transition_for-job_id m by next = ground arith

step-Owns : (r : JobStateRegistry) (call : Call) → Owns r → Owns (step r call)
unfolding step new
step-Owns r (registers k) v j m e = ground (arith, get-insert k j (new k) r.jobs, v j m)
step-Owns r (transitions k by next) v j m e = elim (Option-cases (get k r.jobs)) [
  | inl absent ↦ v j m (rw (absent, step) at e)
  | inr (m', found) ↦ ground (
    arith,
    get-insert k j (transition_for m' by next).0 r.jobs,
    v j m,
    v k m',
    found,
    transition_for-job_id m' by next,
  )
]

run-Owns : (r : JobStateRegistry) (calls : List Call) → Owns r → Owns (run r calls)
unfolding run
run-Owns r [] v = v
run-Owns r (call ∷ calls) v = run-Owns (step r call) calls (step-Owns r call v)

empty-Owns : Owns empty
unfolding empty get
empty-Owns j m e = cc

-- Whether `transition(job_id, requested_by, next)` is granted by a job's present state.
abbrev pub granted : Option AppState → (job_id requested_by : ℕ) → AppState → Bool
granted none job_id by next = false
granted (some s) job_id by next = by == job_id && allows_transition_to s next

transition_state :
    (r : JobStateRegistry) (k by : ℕ) (next : AppState) (j : ℕ)
    → Owns r
    → lookup_state (transition r k by next).0 j
      ≡ (if k == j && granted (lookup_state r k) k by next then some next else lookup_state r j)
unfolding transition lookup_state transition_for
transition_state r k by next j v = elim (Option-cases (get k r.jobs)) [
  | inl absent ↦ rw (absent, transition) (ground (arith, absent))
  | inr (m, found) ↦
      ground (arith, get-insert k j (transition_for m by next).0 r.jobs, v k m, found)
]

-- In a registry that calls have built from the empty one, a transition of job `k` changes the
-- state of no other job, and changes that of `k` exactly when `k` itself asks for a state that
-- the table allows from its present one; then that is its state.
pub transition_isolated :
    (calls : List Call) (k by : ℕ) (next : AppState) (j : ℕ)
    → let r = run empty calls in
      lookup_state (transition r k by next).0 j
      ≡ (if k == j && granted (lookup_state r k) k by next then some next else lookup_state r j)
transition_isolated calls k by next j =
    transition_state (run empty calls) k by next j (run-Owns empty calls empty-Owns)

-- Registration succeeds exactly for a job that is not there, files it as `idle` and changes no
-- other job; for a job that is there it fails and the registry stays as it was.
pub register_cases :
    (r : JobStateRegistry) (k : ℕ)
    → ((lookup_state r k ≡ none)
        × ((register r k).1 ≡ ok tt)
        × ((j : ℕ)
            → lookup_state (register r k).0 j ≡ (if k == j then some idle else lookup_state r j)))
      ⊎ ((s : AppState) × (lookup_state r k ≡ some s)
          × (register r k ≡ (r, err (already_registered k))))
unfolding register lookup_state new
register_cases r k = elim (Option-cases (get k r.jobs)) [
  | inl absent ↦
      inl
        (rw absent refl, rw absent refl, λ j. ground (arith, absent, get-insert k j (new k) r.jobs))
  | inr (m, found) ↦ inr (m.state, rw found refl, rw found refl)
]
