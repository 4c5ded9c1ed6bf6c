-- ===== src/Domain/Job/Lifecycle.antt =====
-- What a history of requests can do to one job's state machine.
use free_whisper.Prelude.{
  ℕ, ◌≡◌, refl, ◌≢◌, ◌⊎◌, inl, inr, Bool, true, false, List, [], ◌∷◌, Memᴰ, arith, ok, err, All,
  leb, le→leb, ◌≤◌, length, map, ==_self,
}
use free_whisper.Domain.Job.{
  AppState, idle, preparing_recording, recording, finalizing_audio, queued, loading_model,
  transcribing, applying_corrections, awaiting_injection_confirmation, injecting, completed, failed,
  cancelling, allows_transition_to, JobStateMachine, wrong_job, invalid, new, transition_for, run,
}

-- A request is granted exactly when its own job makes it and the table has the edge; a granted
-- request enters the state, a refused one changes nothing, and the error says why.
pub transition_for_cases :
    (m : JobStateMachine) (by : ℕ) (next : AppState)
    → ((by ≡ m.job_id)
        × (allows_transition_to m.state next ≡ true)
        × (transition_for m by next ≡ (record m { state = next }, ok tt)))
      ⊎ ((by ≡ m.job_id)
          × (allows_transition_to m.state next ≡ false)
          × (transition_for m by next ≡ (m, err (invalid m.job_id m.state next))))
      ⊎ ((by ≢ m.job_id) × (transition_for m by next ≡ (m, err (wrong_job m.job_id by))))
unfolding transition_for
transition_for_cases m by next = ground arith

-- The position of a state in the pipeline; the states outside it have none.
abbrev pub stage : AppState → ℕ
stage idle = 0
stage preparing_recording = 1
stage recording = 2
stage finalizing_audio = 3
stage queued = 4
stage loading_model = 5
stage transcribing = 6
stage applying_corrections = 7
stage awaiting_injection_confirmation = 8
stage injecting = 9
stage completed = 10
stage failed = 0
stage cancelling = 0

-- The stages that no job can skip.
pub data IsGate : AppState → Type 0 where
  prepare_gate : IsGate preparing_recording
  record_gate : IsGate recording
  finalize_gate : IsGate finalizing_audio
  queue_gate : IsGate queued
  transcribe_gate : IsGate transcribing
  correct_gate : IsGate applying_corrections

abbrev is_past : AppState → AppState → Bool
is_past gate s = leb (stage gate) (stage s)

gate_step :
    {g : AppState}
    → IsGate g
    → (s next : AppState) → is_past g s ≡ false
    → allows_transition_to s next ≡ true
    → (g ≡ next) ⊎ (is_past g next ≡ false)
unfolding allows_transition_to
gate_step prepare_gate s next p a = ground arith
gate_step record_gate s next p a = ground arith
gate_step finalize_gate s next p a = ground arith
gate_step queue_gate s next p a = ground arith
gate_step transcribe_gate s next p a = ground arith
gate_step correct_gate s next p a = ground arith

run-gate :
    {g : AppState} (m : JobStateMachine) (requests : List (ℕ × AppState))
    → IsGate g
    → is_past g m.state ≡ false
    → is_past g (run m requests).0.state ≡ true
    → Memᴰ g (run m requests).1
unfolding run
run-gate m [] gate p q = cc
run-gate m ((by, next) ∷ rest) gate p q = elim (transition_for_cases m by next) [
  | inl (_, edge, granted) ↦ rw granted (elim (gate_step gate m.state next p edge) [
    | inl same ↦ Memᴰ.head same
    | inr before ↦
        Memᴰ.tail (run-gate (record m { state = next }) rest gate before (rw granted at q))
  ])
  | inr (inl (_, _, refused)) ↦ rw refused (run-gate m rest gate p (rw refused at q))
  | inr (inr (_, refused)) ↦ rw refused (run-gate m rest gate p (rw refused at q))
]

-- A new job whose history of requests ends in `completed`, `injecting` or
-- `awaiting_injection_confirmation` has entered every stage that cannot be skipped.
pub done_passed_gates :
    {g : AppState} (job_id : ℕ) (requests : List (ℕ × AppState))
    → IsGate g
    → 8 ≤ stage (run (new job_id) requests).0.state
    → Memᴰ g (run (new job_id) requests).1
unfolding new
done_passed_gates job_id requests gate done = run-gate _ requests gate (start gate) (end gate)
  where
    start : {g : AppState} → IsGate g → is_past g idle ≡ false
    start prepare_gate = refl
    start record_gate = refl
    start finalize_gate = refl
    start queue_gate = refl
    start transcribe_gate = refl
    start correct_gate = refl

    end : {g : AppState} → IsGate g → is_past g (run (new job_id) requests).0.state ≡ true
    end prepare_gate = le→leb _ _ (omega arith)
    end record_gate = le→leb _ _ (omega arith)
    end finalize_gate = le→leb _ _ (omega arith)
    end queue_gate = le→leb _ _ (omega arith)
    end transcribe_gate = le→leb _ _ (omega arith)
    end correct_gate = le→leb _ _ (omega arith)

-- Requests that other jobs make, however many and whatever they ask, change nothing.
pub run-others :
    (m : JobStateMachine) (requests : List (ℕ × AppState))
    → All (λ r. r.0 ≢ m.job_id) requests
    → run m requests ≡ (m, [])
unfolding run
run-others m [] h = refl
run-others m ((by, next) ∷ rest) h = elim (transition_for_cases m by next) [
  | inl (own, _, _) ↦ absurd (h.0 own)
  | inr (inl (own, _, _)) ↦ absurd (h.0 own)
  | inr (inr (_, refused)) ↦ rw (refused, run-others m rest h.1)
]

-- The requests that bring a job back to `idle`.
abbrev way_home : AppState → List AppState
way_home idle = []
way_home preparing_recording = failed ∷ idle ∷ []
way_home recording = failed ∷ idle ∷ []
way_home finalizing_audio = failed ∷ idle ∷ []
way_home queued = failed ∷ idle ∷ []
way_home loading_model = failed ∷ idle ∷ []
way_home transcribing = failed ∷ idle ∷ []
way_home applying_corrections = failed ∷ idle ∷ []
way_home awaiting_injection_confirmation = failed ∷ idle ∷ []
way_home injecting = failed ∷ idle ∷ []
way_home completed = idle ∷ []
way_home failed = idle ∷ []
way_home cancelling = idle ∷ []

-- From every state the owning job can bring its machine back to `idle`, in at most two requests,
-- all of them granted.
pub run-way_home :
    (m : JobStateMachine)
    → (path : List AppState) × (length path ≤ 2)
      × (run m (map (λ s. (m.job_id, s)) path) ≡ (record m { state = idle }, path))
unfolding run transition_for allows_transition_to
run-way_home m = (way_home m.state, ground arith, ground (arith, ==_self m.job_id))
