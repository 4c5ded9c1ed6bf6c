-- ===== src/Audio/Vad.antt =====
-- crates/audio/src/lib.rs: `LiveVad`, which follows the microphone, and `analyze_speech`, which
-- judges a finished recording.
pub mod Steps
pub mod Live
use free_whisper.Prelude.{
  ℕ, ◌+◌, ◌*◌, ◌/◌, Bool, true, false, not, ◌&&◌, ◌||◌, List, [], ◌∷◌, ◌++◌, map, Option, none,
  some, leb, ◌==◌, if◌then◌else◌, length, is_empty, Result, ok, err, ok_or, ◌>>=◌, ◌>>◌,
}
use free_whisper.Domain.Payload.{saturating_mul}
use free_whisper.Audio.Settings.{VadSettings, AudioError, vad_failed, validate_vad, vad_mode}
use free_whisper.Audio.Signal.{Arithmetic, Backend, saturating_add, chunks_exact}

-- What is known of the frames so far.
pub record Tally : Type 0 where
  pub speech_seen : Bool
  pub speech_duration_ms : ℕ
  pub trailing_silence_ms : ℕ
  pub end_detected : Bool

abbrev pub no_speech : Tally
no_speech = record {
  speech_seen = false;
  speech_duration_ms = 0;
  trailing_silence_ms = 0;
  end_detected = false;
}

-- The body of the loop over the frames, once the detector has answered.
unfoldable pub count_frame : (end_silence_ms : ℕ) (is_speech : Bool) → Tally → Tally
unfolding saturating_add
count_frame end_silence_ms true tally = record tally {
  speech_seen = true;
  speech_duration_ms = saturating_add tally.speech_duration_ms 30;
  trailing_silence_ms = 0;
}
count_frame end_silence_ms false tally =
    let silence = saturating_add tally.trailing_silence_ms 30 in
    if tally.speech_seen
    then record tally {
      trailing_silence_ms = silence;
      end_detected = tally.end_detected || leb end_silence_ms silence;
    }
    else tally

pub record SpeechAnalysis : Type 0 where
  pub speech_duration_ms : ℕ
  pub trailing_silence_ms : ℕ
  pub has_minimum_speech : Bool
  pub vad_end_detected : Bool

pub record LiveVad (Detector : Type 0) : Type 0 where
  pub detector : Detector
  pub frame : List ℕ
  pub frame_samples : ℕ
  pub speech_seen : Bool
  pub trailing_silence_ms : ℕ
  pub end_silence_ms : ℕ
  pub end_detected : Bool
  pub failed : Bool

unfoldable pub has_live_rate : ℕ → Bool
has_live_rate rate = rate == 8000 || rate == 16000 || rate == 32000 || rate == 48000

module _ (arithmetic : Arithmetic) (backend : Backend) where
  open arithmetic use {to_i16, above_half}
  open backend use {Detector, open_detector, process, capability}

  unfoldable pub new_live : (sample_rate_hz : ℕ) → VadSettings → Option (LiveVad Detector)
  unfolding has_live_rate vad_mode
  new_live sample_rate_hz settings =
      if not settings.enabled || not (has_live_rate sample_rate_hz)
      then none
      else elim (open_detector sample_rate_hz (vad_mode settings.aggressiveness) 30) [
        | none ↦ none
        | some detector ↦ some (record {
          detector = detector;
          frame = [];
          frame_samples = sample_rate_hz * 30 / 1000;
          speech_seen = false;
          trailing_silence_ms = 0;
          end_silence_ms = settings.end_silence_ms;
          end_detected = false;
          failed = false;
        })
      ]

  -- The end of `push`, once the detector has answered.
  unfoldable pub settle : (is_speech : Bool) → LiveVad Detector → LiveVad Detector
  unfolding saturating_add
  settle true live = record live { speech_seen = true; trailing_silence_ms = 0 }
  settle false live =
      let silence = saturating_add live.trailing_silence_ms 30 in
      if live.speech_seen
      then record live {
        trailing_silence_ms = silence;
        end_detected = live.end_detected || leb live.end_silence_ms silence;
      }
      else live

  unfoldable pub judge : Option ℕ → LiveVad Detector → LiveVad Detector
  unfolding settle
  judge none live = settle false (record live { failed = true; frame = [] })
  judge (some probability) live = settle (above_half probability) (record live { frame = [] })

  unfoldable pub push : LiveVad Detector → (sample : ℕ) → LiveVad Detector
  unfolding judge
  push live sample =
      let frame = live.frame ++ to_i16 sample ∷ [] in
      let (detector, answer) = process live.detector frame (capability live.detector) in
      if not (length frame == live.frame_samples)
      then record live { frame = frame }
      else judge answer (record live { detector = detector })

  unfoldable pub analyze_frames :
      (end_silence_ms : ℕ) → Detector → Tally → List (List ℕ) → Result AudioError Tally
  unfolding count_frame
  analyze_frames end_silence_ms vad tally [] = ok tally
  analyze_frames end_silence_ms vad tally (frame ∷ frames) =
      let (vad, answer) = process vad (map to_i16 frame) 16000 in
      ok_or answer vad_failed >>= λ probability.
      analyze_frames end_silence_ms vad (count_frame end_silence_ms (above_half probability) tally)
        frames

  unfoldable pub analyze_speech : List ℕ → VadSettings → Result AudioError SpeechAnalysis
  unfolding validate_vad vad_mode analyze_frames chunks_exact saturating_mul
  analyze_speech samples settings =
      validate_vad settings
      >> (if not settings.enabled
          then ok (record {
            speech_duration_ms = saturating_mul (length samples) 1000 / 16000;
            trailing_silence_ms = 0;
            has_minimum_speech = not (is_empty samples);
            vad_end_detected = false;
          })
          else ok_or (open_detector 16000 (vad_mode settings.aggressiveness) 30) vad_failed
            >>= λ vad.
                analyze_frames settings.end_silence_ms vad no_speech (chunks_exact 480 samples)
                >>= λ tally. ok (record {
                  speech_duration_ms = tally.speech_duration_ms;
                  trailing_silence_ms = tally.trailing_silence_ms;
                  has_minimum_speech = leb settings.minimum_speech_ms tally.speech_duration_ms;
                  vad_end_detected = tally.end_detected;
                }))
