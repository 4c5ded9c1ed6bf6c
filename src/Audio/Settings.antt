-- ===== src/Audio/Settings.antt =====
-- crates/audio/src/lib.rs: the settings of a recording, their validation, and the errors. The text
-- that an error has from another crate is left out.
use free_whisper.Prelude.{
  ℕ, zero, suc, Bool, true, not, ◌&&◌, Option, none, ltb, leb, Result, ◌>>◌, refuse_if, Text,
}
use free_whisper.Domain.Payload.{AudioPayloadError}

pub data RecordingMode : Type 0 where
  push_to_talk toggle : RecordingMode

pub record VadSettings : Type 0 where
  pub enabled : Bool
  pub aggressiveness : ℕ
  pub minimum_speech_ms : ℕ
  pub end_silence_ms : ℕ

unfoldable pub default_vad : VadSettings
default_vad = record {
  enabled = true;
  aggressiveness = 2;
  minimum_speech_ms = 180;
  end_silence_ms = 1200;
}

pub record RecordingSettings : Type 0 where
  pub device_id : Option Text
  pub mode : RecordingMode
  pub max_duration_seconds : ℕ
  pub vad : VadSettings

unfoldable pub default_settings : RecordingSettings
unfolding default_vad
default_settings = record {
  device_id = none;
  mode = toggle;
  max_duration_seconds = 180;
  vad = default_vad;
}

pub data AudioError : Type 0 where
  invalid_duration invalid_vad_aggressiveness : AudioError
  no_input_device device_enumeration device_configuration : AudioError
  configured_device_unavailable : (id : Text) → AudioError
  start_capture device_lost buffer_overflow duration_limit_reached empty_recording : AudioError
  resampling vad_failed : AudioError
  payload : AudioPayloadError → AudioError

-- `WebRtcVadMode`.
pub data VadMode : Type 0 where
  quality low_bitrate aggressive very_aggressive : VadMode

unfoldable pub validate_vad : VadSettings → Result AudioError (Unit {0})
validate_vad settings = refuse_if (ltb 3 settings.aggressiveness) invalid_vad_aggressiveness

unfoldable pub validate_settings : RecordingSettings → Result AudioError (Unit {0})
unfolding validate_vad
validate_settings settings =
    refuse_if (not (leb 15 settings.max_duration_seconds && leb settings.max_duration_seconds 600))
      invalid_duration
    >> validate_vad settings.vad

unfoldable pub vad_mode : (aggressiveness : ℕ) → VadMode
vad_mode zero = quality
vad_mode (suc zero) = low_bitrate
vad_mode (suc (suc zero)) = aggressive
vad_mode (suc (suc (suc n))) = very_aggressive
