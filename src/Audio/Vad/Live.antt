-- ===== src/Audio/Vad/Live.antt =====
-- crates/audio/src/lib.rs: the detector that follows the microphone and the one that judges the
-- finished recording agree.
use free_whisper.Prelude.{
  ℕ, ◌≡◌, ◌∙◌, refl, sym, ap, subst, arith, inl, inr, true, false, List, [], ◌∷◌, ◌++◌, map, Option,
  none, some, leb, ◌==◌, Bool-cases, Option-cases, length, Result, ok, err, ◌>>=◌,
}
use free_whisper.Audio.Settings.{VadSettings, AudioError, validate_vad, vad_mode}
use free_whisper.Audio.Signal.{Arithmetic, Backend, chunks_exact_from, chunks_exact}
use free_whisper.Audio.Vad.{
  Tally, no_speech, count_frame, SpeechAnalysis, LiveVad, has_live_rate, new_live, analyze_frames,
  analyze_speech,
}
use free_whisper.Audio.Vad.Steps.{
  hear, abreast, push_begins, push_completes, push_refused, hear_keeps_failed,
}

module _ (arithmetic : Arithmetic) (backend : Backend) where
  open arithmetic use {to_i16, above_half}
  open backend use {Detector, open_detector, process, capability}

  -- What the live detector has come to, by what the other came to.
  unfoldable Follows : (end_silence_ms : ℕ) → Result AudioError Tally → LiveVad Detector → Type 0
  Follows e (ok tally) live =
      (vad : Detector) × ((begun : List ℕ) × (live ≡ abreast arithmetic backend e vad begun tally))
  Follows e (err x) live = live.failed ≡ true

  module _
      (kept : (vad : Detector) (frame : List ℕ) (rate : ℕ)
        → capability (process vad frame rate).0 ≡ capability vad) where
    -- Both on the same samples, in the middle of a frame.
    hear-abreast :
        (e : ℕ) (xs begun : List ℕ) (vad : Detector) (tally : Tally)
        → capability vad ≡ 16000
        → Follows e
            (analyze_frames arithmetic backend e vad tally (chunks_exact_from 480 begun xs))
            (hear arithmetic backend (abreast arithmetic backend e vad begun tally) xs)
    unfolding hear analyze_frames chunks_exact_from Follows
    hear-abreast e [] begun vad tally rate = (vad, (begun, refl))
    hear-abreast e (x ∷ xs) begun vad tally rate =
        elim (Bool-cases (length (begun ++ x ∷ []) == 480)) [
          | inr short ↦
              rw (short, push_begins arithmetic backend e vad begun tally x short)
                (hear-abreast e xs (begun ++ x ∷ []) vad tally rate)
          | inl full ↦
              let next : Detector × Option ℕ = process vad (map to_i16 (begun ++ x ∷ [])) 16000 in
              let rate' : capability next.0 ≡ 16000 = kept vad _ 16000 ∙ rate in
              elim (Option-cases next.1) [
                | inl refused ↦
                    rw (full, refused)
                      (hear_keeps_failed arithmetic backend xs _ (
                        push_refused arithmetic backend e vad next.0 begun tally x rate full
                          (ap (λ o. (next.0, o)) refused)))
                | inr (p, answered) ↦
                    rw
                      (
                        full,
                        answered,
                        push_completes arithmetic backend e vad next.0 begun tally x p rate full
                            (ap (λ o. (next.0, o)) answered),
                      )
                      (hear-abreast e xs [] next.0 (count_frame e (above_half p) tally) rate')
              ]
        ]

  -- The live detector says what the analysis says, and failed where it is an error.
  unfoldable pub Agrees : Result AudioError SpeechAnalysis → LiveVad Detector → Type 0
  Agrees (ok analysis) live =
      (live.end_detected ≡ analysis.vad_end_detected)
      × (live.trailing_silence_ms ≡ analysis.trailing_silence_ms)
      × (live.failed ≡ false)
  Agrees (err x) live = live.failed ≡ true

  none_or_some {ℓ} :
      {B : Type ℓ} (live : LiveVad Detector)
      → ◌≡◌ {A = Option (LiveVad Detector)} none (some live)
      → B
  none_or_some live h = absurd (ground arith)

  some_eq : {a b : LiveVad Detector} → ◌≡◌ {A = Option (LiveVad Detector)} (some a) (some b) → a ≡ b
  some_eq h = cc

  abbrev report : VadSettings → Tally → SpeechAnalysis
  report settings tally = record {
    speech_duration_ms = tally.speech_duration_ms;
    trailing_silence_ms = tally.trailing_silence_ms;
    has_minimum_speech = leb settings.minimum_speech_ms tally.speech_duration_ms;
    vad_end_detected = tally.end_detected;
  }

  Follows-Agrees :
      (settings : VadSettings) (e : ℕ) (r : Result AudioError Tally) (live : LiveVad Detector)
      → Follows e r live
      → Agrees (r >>= λ tally. ok (report settings tally)) live
  unfolding Follows Agrees abreast
  Follows-Agrees settings e (ok tally) live (vad, (begun, same)) =
      subst (λ l. Agrees (ok (report settings tally)) l) (sym same) (refl, refl, refl)
  Follows-Agrees settings e (err x) live h = h

  module _
      (opened : (rate : ℕ) (settings : VadSettings) (vad : Detector)
        → open_detector rate (vad_mode settings.aggressiveness) 30 ≡ some vad
        → capability vad ≡ rate)
      (kept : (vad : Detector) (frame : List ℕ) (rate : ℕ)
        → capability (process vad frame rate).0 ≡ capability vad) where
    -- At 16 kHz the detector that follows the microphone comes to the same end of speech and the
    -- same silence as `analyze_speech` on all the samples, where that has a result, and has failed
    -- where that is an error. A detector is taken to keep the rate with which it was opened.
    pub hear-analyze_speech :
        (settings : VadSettings) (samples : List ℕ) (live : LiveVad Detector)
        → validate_vad settings ≡ ok tt
        → new_live arithmetic backend 16000 settings ≡ some live
        → Agrees
            (analyze_speech arithmetic backend samples settings)
            (hear arithmetic backend live samples)
    unfolding new_live analyze_speech has_live_rate abreast chunks_exact
    hear-analyze_speech settings samples live valid started = elim (Bool-cases settings.enabled) [
      | inr off ↦ none_or_some live (rw off at started)
      | inl on ↦ elim (Option-cases (open_detector 16000 (vad_mode settings.aggressiveness) 30)) [
        | inl shut ↦ none_or_some live (rw (on, shut) at started)
        | inr (vad, ready) ↦
            let same : ◌≡◌ {A = Option (LiveVad Detector)}
                (some (abreast arithmetic backend settings.end_silence_ms vad [] no_speech))
                (some live) =
              rw (on, ready) at started in
            rw (valid, on, ready)
              (Follows-Agrees settings settings.end_silence_ms
                (analyze_frames arithmetic backend settings.end_silence_ms vad no_speech
                  (chunks_exact_from 480 [] samples))
                (hear arithmetic backend live samples)
                (subst
                  (λ l.
                    Follows settings.end_silence_ms
                      (analyze_frames arithmetic backend settings.end_silence_ms vad no_speech
                        (chunks_exact_from 480 [] samples))
                      (hear arithmetic backend l samples))
                  (some_eq same)
                  (hear-abreast kept settings.end_silence_ms samples [] vad no_speech
                    (opened 16000 settings vad ready))))
      ]
    ]
