-- ===== src/Domain/Job/Follows.antt =====
-- Which state can follow which, by the stages of the pipeline.
use free_whisper.Prelude.{
  ℕ, suc, ◌≡◌, refl, sym, Bool, true, false, not, ◌&&◌, ◌||◌, List, [], ◌∷◌, map, arith, leb, ◌==◌,
  inl, inr, Bool-cases, ◌∙◌, filter,
}
use free_whisper.Domain.Job.{
  AppState, idle, preparing_recording, transcribing, injecting, completed, failed, cancelling,
  allows_transition_to, JobStateMachine, transition_for, run,
}
use free_whisper.Domain.Job.Lifecycle.{stage, transition_for_cases}

-- The stages from the preparation to the injection.
abbrev is_under_way : AppState → Bool
is_under_way s = leb 1 (stage s) && leb (stage s) 9

abbrev is_over : AppState → Bool
is_over completed = true
is_over failed = true
is_over cancelling = true
is_over _ = false

abbrev is_cancelling : AppState → Bool
is_cancelling cancelling = true
is_cancelling _ = false

abbrev is_idle : AppState → Bool
is_idle idle = true
is_idle _ = false

-- A job that is over comes back to rest, and one at rest is prepared. One under way goes to the
-- next stage, past the loading of the model or the confirmation where they are not needed, or
-- fails; it is cancelled, but not while the text is corrected or injected, and a cancellation may
-- fail. It is completed from the corrections on.
abbrev pub follows : AppState → AppState → Bool
follows s idle = is_over s
follows s preparing_recording = is_idle s
follows s failed = is_under_way s || is_cancelling s
follows s cancelling = is_under_way s && not (stage s == 7 || stage s == 9)
follows s transcribing = stage s == 4 || stage s == 5
follows s injecting = stage s == 7 || stage s == 8
follows s completed = leb 7 (stage s) && leb (stage s) 9
follows s next = is_under_way s && stage next == suc (stage s)

allows_transition_to-follows : (s next : AppState) → allows_transition_to s next ≡ follows s next
unfolding allows_transition_to
allows_transition_to-follows s next = ground arith

-- From a state, each that is entered follows the one before it, and the last is where it ends.
abbrev pub IsPath : AppState → List AppState → AppState → Type 0
IsPath s [] last = s ≡ last
IsPath s (next ∷ path) last = (follows s next ≡ true) × IsPath next path last

abbrev pub own : (m : JobStateMachine) → List (ℕ × AppState) → List (ℕ × AppState)
own m requests = filter (λ r. r.0 == m.job_id) requests

run_entered :
    (m : JobStateMachine) (requests : List (ℕ × AppState))
    → IsPath m.state (run m requests).1 (run m requests).0.state
unfolding run
run_entered m [] = refl
run_entered m ((by, next) ∷ rest) = elim (transition_for_cases m by next) [
  | inl (_, edge, granted) ↦ rw granted (
    sym (allows_transition_to-follows m.state next) ∙ edge,
    run_entered (record m { state = next }) rest,
  )
  | inr (inl (_, _, refused)) ↦ rw refused (run_entered m rest)
  | inr (inr (_, refused)) ↦ rw refused (run_entered m rest)
]

transition_for-job_id :
    (m : JobStateMachine) (by : ℕ) (next : AppState)
    → (transition_for m by next).0.job_id ≡ m.job_id
unfolding transition_for
transition_for-job_id m by next = ground arith

run_own :
    (m : JobStateMachine) (k : ℕ) (requests : List (ℕ × AppState))
    → m.job_id ≡ k
    → run m requests ≡ run m (filter (λ r. r.0 == k) requests)
unfolding run
run_own m k [] own = refl
run_own m k ((by, next) ∷ rest) own = elim (Bool-cases (by == k)) [
  | inl same ↦
      let ih =
        run_own (transition_for m by next).0 k rest (transition_for-job_id m by next ∙ own) in
      rw (same, run) (rw ih refl)
  | inr other ↦ elim (transition_for_cases m by next) [
    | inl (same, _, _) ↦ ground (arith, same, own, other)
    | inr (inl (same, _, _)) ↦ ground (arith, same, own, other)
    | inr (inr (_, refused)) ↦ rw (other, refused) (run_own m k rest own)
  ]
]

run_follows_path :
    (m : JobStateMachine) (path : List AppState) (last : AppState)
    → IsPath m.state path last
    → run m (map (λ s. (m.job_id, s)) path) ≡ (record m { state = last }, path)
unfolding run
run_follows_path m [] last h = rw (sym h) refl
run_follows_path m (next ∷ path) last h = elim (transition_for_cases m m.job_id next) [
  | inl (_, _, granted) ↦
      rw granted (rw (run_follows_path (record m { state = next }) path last h.1) refl)
  | inr (inl (_, edge, _)) ↦
      absurd (true≢false (sym h.0 ∙ sym (allows_transition_to-follows m.state next) ∙ edge))
  | inr (inr (other, _)) ↦ absurd (other refl)
]
  where
    true≢false : ◌≡◌ {A = Bool} true false → ⊥
    true≢false p = cc

-- Whatever is asked of a job's machine, by that job or others: the states that it enters are a
-- path of the pipeline to the state in which it ends, and the requests of other jobs might as well
-- not have been made. And where `path` is a path of the pipeline to `last`, the job that asks for its
-- states in order is granted them all.
pub run-IsPath :
    (m : JobStateMachine) (requests : List (ℕ × AppState)) (path : List AppState) (last : AppState)
    → IsPath m.state path last
    → IsPath m.state (run m requests).1 (run m requests).0.state
      × (run m requests ≡ run m (own m requests))
      × (run m (map (λ s. (m.job_id, s)) path) ≡ (record m { state = last }, path))
run-IsPath m requests path last h =
    (run_entered m requests, run_own m m.job_id requests refl, run_follows_path m path last h)
