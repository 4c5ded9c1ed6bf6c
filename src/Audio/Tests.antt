-- ===== src/Audio/Tests.antt =====
-- crates/audio/src/lib.rs: runs of the model on small inputs.
use free_whisper.Prelude.{
  ℕ, max, ◌≡◌, refl, sym, true, false, List, [], ◌∷◌, Option, some, ltb, any, ◌==◌, not,
  if◌then◌else◌, All, Result, ok, err,
}
use free_whisper.Audio.Settings.{
  default_vad, default_settings, AudioError, device_lost, duration_limit_reached, validate_vad,
}
use free_whisper.Audio.Signal.{Arithmetic, Backend, Conversion}
use free_whisper.Audio.Vad.{LiveVad, new_live, analyze_speech}
use free_whisper.Audio.Vad.Live.{Agrees, hear-analyze_speech}
use free_whisper.Audio.Vad.Steps.{hear}
use free_whisper.Audio.Resample.{zeros, resample_to_target}
use free_whisper.Audio.Capture.{
  RecordingHandle, FinalizedRecording, Callback, delivered, broken, start, finish,
}
use free_whisper.Audio.Capture.Complete.{finish_is_complete}
use free_whisper.Audio.Capture.Kept.{run, heard_in, IsDelivered}

-- The first channel, and the bit patterns of 0.0 and 1.0 as answers.
abbrev plain : Arithmetic
plain = record {
  mix = λ channels frame. elim frame [ [] ↦ 0 | x ∷ xs ↦ x ];
  louder = λ peak sample. max peak sample;
  to_i16 = λ sample. sample;
  to_milli = λ peak. peak;
  above_half = λ probability. ltb 0x3F000000 probability;
}

-- A detector that takes any sound for speech, and remembers its rate.
abbrev eager : Backend
eager = record {
  Detector = ℕ;
  open_detector = λ rate mode frame_ms. some rate;
  process = λ detector frame rate.
      (detector, some (if any (λ s. not (s == 0)) frame then 0x3F800000 else 0));
  capability = λ detector. detector;
}

abbrev unchanged : Conversion
unchanged = record {
  Resampler = ℕ;
  open_resampler = λ from to chunk. some from;
  convert = λ resampler chunk. some (resampler, chunk);
  flush = λ resampler. some [];
}

abbrev waiting : LiveVad ℕ
waiting = record {
  detector = 16000;
  frame = [];
  frame_samples = 480;
  speech_seen = false;
  trailing_silence_ms = 0;
  end_silence_ms = 1200;
  end_detected = false;
  failed = false;
}

some_same : {a b : ℕ} → ◌≡◌ {A = Option ℕ} (some a) (some b) → a ≡ b
some_same h = cc

vad_is_valid : validate_vad default_vad ≡ ok tt
unfolding validate_vad default_vad
vad_is_valid = refl

waiting_starts : new_live plain eager 16000 default_vad ≡ some waiting
unfolding new_live default_vad
waiting_starts = refl

hear-analyze_speech_example :
    Agrees plain eager
      (analyze_speech plain eager (9 ∷ zeros 1000) default_vad)
      (hear plain eager waiting (9 ∷ zeros 1000))
hear-analyze_speech_example =
    hear-analyze_speech plain eager (λ rate settings vad opened. sym (some_same opened))
      (λ vad frame rate. refl) default_vad (9 ∷ zeros 1000) waiting vad_is_valid waiting_starts

abbrev one_channel : Result AudioError (ℕ × ℕ)
one_channel = ok (16000, 1)

abbrev started : RecordingHandle ℕ
started = record {
  state = record {
    samples = [];
    capacity = 4;
    sample_rate_hz = 16000;
    channels = 1;
    peak = 0;
    limit_reached = false;
    live_vad = some waiting;
  };
  stream_error = false;
  callback_overflow = false;
  settings = default_settings;
}

abbrev buffers : List Callback
buffers = delivered (5 ∷ 6 ∷ []) ∷ delivered (7 ∷ []) ∷ []

abbrev recorded : FinalizedRecording
recorded = record {
  audio = record { sample_rate_hz = 16000; samples = 5 ∷ 6 ∷ 7 ∷ [] };
  speech = record {
    speech_duration_ms = 0;
    trailing_silence_ms = 0;
    has_minimum_speech = false;
    vad_end_detected = false;
  };
}

starts : start plain eager (λ n. 4) one_channel default_settings ≡ ok started
unfolding start default_settings
starts = refl

finishes : finish plain eager unchanged true (run plain eager started buffers) ≡ ok recorded
unfolding finish run default_settings
finishes = refl

-- A sample too many ends in an error.
overflows :
    finish plain eager unchanged true
      (run plain eager started (delivered (1 ∷ 2 ∷ 3 ∷ 4 ∷ 5 ∷ []) ∷ []))
    ≡ err duration_limit_reached
unfolding finish run default_settings
overflows = refl

-- So does a device that went away, whatever it had delivered.
breaks :
    finish plain eager unchanged true (run plain eager started (delivered (1 ∷ []) ∷ broken ∷ []))
    ≡ err device_lost
unfolding finish run default_settings
breaks = refl

finish_is_complete_example :
    All IsDelivered buffers
    × ((run plain eager started buffers).state.samples ≡ heard_in plain eager 1 buffers)
    × (resample_to_target unchanged (heard_in plain eager 1 buffers) 16000 ≡ ok (5 ∷ 6 ∷ 7 ∷ []))
    × (analyze_speech plain eager (5 ∷ 6 ∷ 7 ∷ []) (run plain eager started buffers).settings.vad
        ≡ ok recorded.speech)
finish_is_complete_example =
    finish_is_complete plain eager unchanged (λ n. 4) one_channel default_settings started buffers
      true recorded starts finishes
