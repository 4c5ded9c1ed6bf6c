-- ===== src/Domain/Job/Tests.antt =====
-- A job that runs through its pipeline, and requests of another job.
use free_whisper.Prelude.{ℕ, ◌≡◌, ◌≤◌, refl, List, [], ◌∷◌, map, Memᴰ, arith, length}
use free_whisper.Domain.Job.{
  AppState, idle, preparing_recording, recording, finalizing_audio, queued, loading_model,
  transcribing, applying_corrections, completed, failed, allows_transition_to, JobStateMachine, new,
  transition_for, run,
}
use free_whisper.Domain.Job.Lifecycle.{transcribe_gate, done_passed_gates, run-way_home}
use free_whisper.Domain.Job.Follows.{IsPath, own, run-IsPath}

abbrev pipeline : List (ℕ × AppState)
pipeline =
    map (λ s. (7, s))
      (preparing_recording ∷ recording ∷ finalizing_audio ∷ queued ∷ loading_model ∷ transcribing
        ∷ applying_corrections ∷ completed ∷ [])

abbrev busy : JobStateMachine
busy = record { job_id = 7; state = transcribing }

-- Another job, and one request that the pipeline has no place for.
abbrev mixed : List (ℕ × AppState)
mixed = (8, failed) ∷ (7, idle) ∷ (7, applying_corrections) ∷ []

run-IsPath_example :
    IsPath transcribing (run busy mixed).1 (run busy mixed).0.state
    × (run busy mixed ≡ run busy (own busy mixed))
    × (run busy (map (λ s. (7, s)) (failed ∷ idle ∷ []))
        ≡ (record busy { state = idle }, failed ∷ idle ∷ []))
run-IsPath_example = run-IsPath busy mixed (failed ∷ idle ∷ []) idle (refl, (refl, refl))

done_passed_gates_example : Memᴰ transcribing (run (new 7) pipeline).1
done_passed_gates_example =
    done_passed_gates 7 pipeline transcribe_gate
      (unfold run new transition_for allows_transition_to in omega arith)

run-way_home_example :
    (path : List AppState) × (length path ≤ 2)
    × (run busy (map (λ s. (busy.job_id, s)) path) ≡ (record busy { state = idle }, path))
run-way_home_example = run-way_home busy
