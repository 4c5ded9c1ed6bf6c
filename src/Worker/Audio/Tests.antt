-- ===== src/Worker/Audio/Tests.antt =====
-- Sixteen samples, as bytes and as a WAV file.
use free_whisper.Prelude.{ℕ, ◌≡◌, refl, ◌≤◌, ◌⊎◌, List, [], ◌∷◌, ◌++◌, arith, ok, err}
use free_whisper.Worker.Failure.{ApiFailure}
use free_whisper.Worker.Audio.{
  samples, wav, pcm_f32le_mono_16khz, max_audio_duration_ms, refused, validate_pcm_f32,
  validate_audio, limit,
}
use free_whisper.Worker.Audio.Writer.{wav_header, pcm_f32le_to_wav}
use free_whisper.Domain.Payload.{PcmF32Mono, duration_ms}
use free_whisper.Domain.Payload
use free_whisper.Worker.Audio.Samples.{accepted_pcm_is_payload}
use free_whisper.Worker.Audio.Scan.{validate_audio_answers}
use free_whisper.Worker.Audio.Container.{accepted_pcm_converts}

abbrev sixteen_samples : List ℕ
sixteen_samples =
    0 ∷ 0 ∷ 0 ∷ 0 ∷ 0 ∷ 0 ∷ 128 ∷ 63 ∷ 0 ∷ 0 ∷ 0 ∷ 0 ∷ 0 ∷ 0 ∷ 128 ∷ 63 ∷ 0 ∷ 0 ∷ 0 ∷ 0 ∷ 0 ∷ 0
    ∷ 128 ∷ 63 ∷ 0 ∷ 0 ∷ 0 ∷ 0 ∷ 0 ∷ 0 ∷ 128 ∷ 63 ∷ 0 ∷ 0 ∷ 0 ∷ 0 ∷ 0 ∷ 0 ∷ 128 ∷ 63 ∷ 0 ∷ 0 ∷ 0 ∷ 0
    ∷ 0 ∷ 0 ∷ 128 ∷ 63 ∷ 0 ∷ 0 ∷ 0 ∷ 0 ∷ 0 ∷ 0 ∷ 128 ∷ 63 ∷ 0 ∷ 0 ∷ 0 ∷ 0 ∷ 0 ∷ 0 ∷ 128 ∷ 63 ∷ []

one_millisecond : validate_audio pcm_f32le_mono_16khz sixteen_samples ≡ ok 1
unfolding validate_audio validate_pcm_f32 limit
one_millisecond = refl

accepted_pcm_converts_example :
    (bytes : List ℕ) × (pcm_f32le_to_wav sixteen_samples ≡ ok bytes)
    × (validate_audio wav bytes ≡ ok 1)
accepted_pcm_converts_example = accepted_pcm_converts sixteen_samples 1 one_millisecond

validate_audio_answers_example :
    ((d : ℕ) × (d ≤ max_audio_duration_ms)
      × (validate_audio wav (wav_header 64 ++ sixteen_samples) ≡ ok d))
    ⊎ ((f : ApiFailure) × (validate_audio wav (wav_header 64 ++ sixteen_samples) ≡ err (refused f)))
unfolding wav_header
validate_audio_answers_example =
    validate_audio_answers wav (wav_header 64 ++ sixteen_samples) (omega arith)

bytes_accepted : validate_pcm_f32 sixteen_samples ≡ ok 1
unfolding validate_pcm_f32
bytes_accepted = refl

accepted_pcm_is_payload_example :
    (payload : PcmF32Mono) × (Payload.new 16000 (samples sixteen_samples) ≡ ok payload)
    × (duration_ms payload ≡ 1)
accepted_pcm_is_payload_example = accepted_pcm_is_payload sixteen_samples 1 bytes_accepted
