-- ===== src/Audio/Capture.antt =====
-- crates/audio/src/lib.rs: `CaptureState`, the callbacks of the stream, and `RecordingHandle`. A
-- device has at least one channel. The vector of samples has the capacity that its allocation gave,
-- and is never grown.
pub mod Kept
pub mod Complete
use free_whisper.Prelude.{
  ℕ, ◌+◌, ◌*◌, ◌/◌, Bool, true, false, List, [], ◌∷◌, ◌++◌, map, Option, none, some, ◌==◌,
  if◌then◌else◌, length, is_empty, Result, ok, err, map_err, ◌>>=◌, ◌>>◌, refuse_if,
}
use free_whisper.Domain.Payload as Payload
use free_whisper.Domain.Payload.{PcmF32Mono, saturating_mul}
use free_whisper.Audio.Settings.{
  VadSettings, RecordingSettings, AudioError, start_capture, device_lost, buffer_overflow,
  duration_limit_reached, empty_recording, vad_failed, payload, validate_settings,
}
use free_whisper.Audio.Signal.{Arithmetic, Backend, Conversion, chunks_exact}
use free_whisper.Audio.Vad.{SpeechAnalysis, LiveVad, new_live, push, analyze_speech}
use free_whisper.Audio.Resample.{resample_to_target}

pub record CaptureState (Detector : Type 0) : Type 0 where
  pub samples : List ℕ
  pub capacity : ℕ
  pub sample_rate_hz : ℕ
  pub channels : ℕ
  pub peak : ℕ
  pub limit_reached : Bool
  pub live_vad : Option (LiveVad Detector)

pub record RecordingStatus : Type 0 where
  pub duration_ms : ℕ
  pub peak_milli : ℕ
  pub max_duration_reached : Bool
  pub vad_end_detected : Bool

pub record FinalizedRecording : Type 0 where
  pub audio : PcmF32Mono
  pub speech : SpeechAnalysis

pub record RecordingHandle (Detector : Type 0) : Type 0 where
  pub state : CaptureState Detector
  pub stream_error : Bool
  pub callback_overflow : Bool
  pub settings : RecordingSettings

-- What the stream calls back with: samples while the lock is free, samples while it is held, and an
-- error.
pub data Callback : Type 0 where
  delivered contended : (input : List ℕ) → Callback
  broken : Callback

unfoldable pub end_is_detected : {D : Type 0} → Option (LiveVad D) → Bool
end_is_detected none = false
end_is_detected (some live) = live.end_detected

unfoldable pub vad_has_failed : {D : Type 0} → Option (LiveVad D) → Bool
vad_has_failed none = false
vad_has_failed (some live) = live.failed

unfoldable pub capture_callback_failure :
    (stream_error callback_overflow : Bool) → Result AudioError (Unit {0})
capture_callback_failure stream_error callback_overflow =
    refuse_if stream_error device_lost >> refuse_if callback_overflow buffer_overflow

module _ (arithmetic : Arithmetic) (backend : Backend) where
  open arithmetic use {mix, louder, to_milli}
  open backend use {Detector}

  unfoldable pub new : (capacity sample_rate_hz channels : ℕ) → VadSettings → CaptureState Detector
  unfolding new_live
  new capacity sample_rate_hz channels vad = record {
    samples = [];
    capacity = capacity;
    sample_rate_hz = sample_rate_hz;
    channels = channels;
    peak = 0;
    limit_reached = false;
    live_vad = new_live arithmetic backend sample_rate_hz vad;
  }

  unfoldable pub push_live : Option (LiveVad Detector) → (sample : ℕ) → Option (LiveVad Detector)
  unfolding push
  push_live none sample = none
  push_live (some live) sample = some (push arithmetic backend live sample)

  unfoldable pub keep_sample : CaptureState Detector → (sample : ℕ) → CaptureState Detector
  unfolding push_live
  keep_sample self sample = record self {
    peak = louder self.peak sample;
    samples = self.samples ++ sample ∷ [];
    live_vad = push_live self.live_vad sample;
  }

  -- `AudioRecorder::start`: the device gives its rate and channels or an error, and `reserve` the
  -- capacity of a vector for so many samples.
  unfoldable pub start :
      (reserve : ℕ → ℕ) (device : Result AudioError (ℕ × ℕ))
      → RecordingSettings
      → Result AudioError (RecordingHandle Detector)
  unfolding new validate_settings saturating_mul
  start reserve device settings = validate_settings settings >> device >>= λ format. ok (record {
    state =
        new (reserve (saturating_mul settings.max_duration_seconds format.0)) format.0 format.1
          settings.vad;
    stream_error = false;
    callback_overflow = false;
    settings = settings;
  })

  -- The loop of `append` over the frames.
  unfoldable pub append_frames : CaptureState Detector → List (List ℕ) → CaptureState Detector
  unfolding keep_sample
  append_frames self [] = self
  append_frames self (frame ∷ frames) =
      let kept = append_frames (keep_sample self (mix self.channels frame)) frames in
      if length self.samples == self.capacity then record self { limit_reached = true } else kept

  unfoldable pub append : CaptureState Detector → (input : List ℕ) → CaptureState Detector
  unfolding append_frames chunks_exact
  append self input = append_frames self (chunks_exact self.channels input)

  unfoldable pub status : CaptureState Detector → RecordingStatus
  unfolding end_is_detected saturating_mul
  status self = record {
    duration_ms = saturating_mul (length self.samples) 1000 / self.sample_rate_hz;
    peak_milli = to_milli self.peak;
    max_duration_reached = self.limit_reached;
    vad_end_detected = end_is_detected self.live_vad;
  }

  unfoldable pub call_back : RecordingHandle Detector → Callback → RecordingHandle Detector
  unfolding append
  call_back self (delivered input) = record self { state = append self.state input }
  call_back self (contended input) = record self { callback_overflow = true }
  call_back self broken = record self { stream_error = true }

  module _ (conversion : Conversion) where
    -- `pauses` says whether the stream could be paused. It is taken that a
    -- paused stream calls back no more, so that the flags and the state are read at one instant.
    unfoldable pub finish :
        (pauses : Bool) → RecordingHandle Detector → Result AudioError FinalizedRecording
    unfolding capture_callback_failure vad_has_failed resample_to_target analyze_speech Payload.new
    finish pauses self = do
      (if pauses then ok tt else err start_capture)
      capture_callback_failure self.stream_error self.callback_overflow
      refuse_if self.state.limit_reached duration_limit_reached
      refuse_if (vad_has_failed self.state.live_vad) vad_failed
      refuse_if (is_empty self.state.samples) empty_recording
      normalized ← resample_to_target conversion self.state.samples self.state.sample_rate_hz
      speech ← analyze_speech arithmetic backend normalized self.settings.vad
      audio ← map_err payload (Payload.new 16000 normalized)
      ok (record { audio = audio; speech = speech })

  unfoldable pub discard : (pauses : Bool) → RecordingHandle Detector → Result AudioError (Unit {0})
  unfolding capture_callback_failure
  discard pauses self =
      (if pauses then ok tt else err start_capture)
      >> capture_callback_failure self.stream_error self.callback_overflow
