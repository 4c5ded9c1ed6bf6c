-- ===== src/Audio/Vad/Steps.antt =====
-- crates/audio/src/lib.rs: the steps of `LiveVad::push`.
use free_whisper.Prelude.{
  ℕ, suc, ◌≡◌, ◌∙◌, refl, ap, inl, inr, Bool, true, false, List, [], ◌∷◌, ◌++◌, map, Option, none,
  some, ◌==◌, Bool-cases, length,
}
use free_whisper.Audio.Signal.{Arithmetic, Backend}
use free_whisper.Audio.Vad.{Tally, count_frame, LiveVad, settle, judge, push}

map-snoc : (f : ℕ → ℕ) (xs : List ℕ) (x : ℕ) → map f xs ++ f x ∷ [] ≡ map f (xs ++ x ∷ [])
map-snoc f [] x = refl
map-snoc f (y ∷ ys) x = ap (◌∷◌ (f y)) (map-snoc f ys x)

length-map : (f : ℕ → ℕ) (xs : List ℕ) → length (map f xs) ≡ length xs
length-map f [] = refl
length-map f (x ∷ xs) = ap suc (length-map f xs)

module _ (arithmetic : Arithmetic) (backend : Backend) where
  open arithmetic use {to_i16, above_half}
  open backend use {Detector, open_detector, process, capability}

  -- Samples arrive one by one.
  unfoldable pub hear : LiveVad Detector → List ℕ → LiveVad Detector
  unfolding push
  hear live [] = live
  hear live (x ∷ xs) = hear (push arithmetic backend live x) xs

  -- The live detector that has counted as the other, with some samples of the next frame.
  unfoldable pub abreast :
      (end_silence_ms : ℕ) → Detector → (begun : List ℕ) → Tally → LiveVad Detector
  abreast end_silence_ms vad begun tally = record {
    detector = vad;
    frame = map to_i16 begun;
    frame_samples = 480;
    speech_seen = tally.speech_seen;
    trailing_silence_ms = tally.trailing_silence_ms;
    end_silence_ms = end_silence_ms;
    end_detected = tally.end_detected;
    failed = false;
  }

  settle-abreast :
      (e : ℕ) (vad : Detector) (tally : Tally) (is_speech : Bool)
      → settle arithmetic backend is_speech (abreast e vad [] tally)
        ≡ abreast e vad [] (count_frame e is_speech tally)
  unfolding settle abreast count_frame
  settle-abreast e vad tally true = refl
  settle-abreast e vad tally false = elim (Bool-cases tally.speech_seen) [
    | inl s ↦ rw s refl
    | inr s ↦ rw s refl
  ]

  -- A sample that does not complete a frame.
  pub push_begins :
      (e : ℕ) (vad : Detector) (begun : List ℕ) (tally : Tally) (x : ℕ)
      → (length (begun ++ x ∷ []) == 480) ≡ false
      → push arithmetic backend (abreast e vad begun tally) x
        ≡ abreast e vad (begun ++ x ∷ []) tally
  unfolding push abreast
  push_begins e vad begun tally x short =
      rw (map-snoc to_i16 begun x, length-map to_i16 (begun ++ x ∷ []), short) refl

  -- A sample that completes a frame for which the detector answers.
  pub push_completes :
      (e : ℕ) (vad vad' : Detector) (begun : List ℕ) (tally : Tally) (x probability : ℕ)
      → capability vad ≡ 16000
      → (length (begun ++ x ∷ []) == 480) ≡ true
      → process vad (map to_i16 (begun ++ x ∷ [])) 16000 ≡ (vad', some probability)
      → push arithmetic backend (abreast e vad begun tally) x
        ≡ abreast e vad' [] (count_frame e (above_half probability) tally)
  unfolding push abreast judge
  push_completes e vad vad' begun tally x probability rate full answered =
      rw (map-snoc to_i16 begun x, length-map to_i16 (begun ++ x ∷ []), full, rate, answered)
        (settle-abreast e vad' tally (above_half probability))

  settle_failed :
      (is_speech : Bool) (live : LiveVad Detector)
      → (settle arithmetic backend is_speech live).failed ≡ live.failed
  unfolding settle
  settle_failed true live = refl
  settle_failed false live = elim (Bool-cases live.speech_seen) [
    | inl s ↦ rw s refl
    | inr s ↦ rw s refl
  ]

  -- A sample that completes a frame which the detector refuses.
  pub push_refused :
      (e : ℕ) (vad vad' : Detector) (begun : List ℕ) (tally : Tally) (x : ℕ)
      → capability vad ≡ 16000
      → (length (begun ++ x ∷ []) == 480) ≡ true
      → process vad (map to_i16 (begun ++ x ∷ [])) 16000 ≡ (vad', none)
      → (push arithmetic backend (abreast e vad begun tally) x).failed ≡ true
  unfolding push abreast judge
  push_refused e vad vad' begun tally x rate full refused =
      rw (map-snoc to_i16 begun x, length-map to_i16 (begun ++ x ∷ []), full, rate, refused)
        (settle_failed false _)

  judge_keeps_failed :
      (answer : Option ℕ) (live : LiveVad Detector)
      → live.failed ≡ true
      → (judge arithmetic backend answer live).failed ≡ true
  unfolding judge
  judge_keeps_failed none live h = settle_failed false _
  judge_keeps_failed (some p) live h = settle_failed _ _ ∙ h

  push_keeps_failed :
      (live : LiveVad Detector) (x : ℕ)
      → live.failed ≡ true
      → (push arithmetic backend live x).failed ≡ true
  unfolding push
  push_keeps_failed live x h =
      elim (Bool-cases (length (live.frame ++ to_i16 x ∷ []) == live.frame_samples)) [
        | inl e ↦ rw e (judge_keeps_failed _ _ h)
        | inr e ↦ rw e h
      ]

  pub hear_keeps_failed :
      (xs : List ℕ) (live : LiveVad Detector) → live.failed ≡ true → (hear live xs).failed ≡ true
  unfolding hear
  hear_keeps_failed [] live h = h
  hear_keeps_failed (x ∷ xs) live h = hear_keeps_failed xs _ (push_keeps_failed live x h)
