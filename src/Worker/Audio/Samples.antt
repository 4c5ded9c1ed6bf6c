-- ===== src/Worker/Audio/Samples.antt =====
-- The worker's validation of raw bytes against the domain's own audio payload.
use free_whisper.Prelude.{ℕ, ◌/◌, ◌≡◌, refl, ap, ◌∙◌, false, List, [], ◌∷◌, arith, length, ok}
use free_whisper.Domain.Payload.{PcmF32Mono, is_finite, saturating_mul, duration_ms}
use free_whisper.Domain.Payload
use free_whisper.Worker.Audio.{samples, any_not_finite, sample_duration_ms, validate_pcm_f32}
use free_whisper.Worker.Audio.Container.{pcm_accepted}

length-samples : (bytes : List ℕ) → length (samples bytes) ≡ length bytes / 4
unfolding samples
length-samples [] = refl
length-samples (a ∷ []) = omega arith
length-samples (a ∷ b ∷ []) = omega arith
length-samples (a ∷ b ∷ c ∷ []) = omega arith
length-samples (a ∷ b ∷ c ∷ d ∷ rest) = omega (arith, length-samples rest)

-- Bytes that the worker accepts as raw samples make a valid audio payload of the domain at 16 kHz,
-- and both compute the same duration.
pub accepted_pcm_is_payload :
    (bytes : List ℕ) (d : ℕ)
    → validate_pcm_f32 bytes ≡ ok d
    → (payload : PcmF32Mono) × (Payload.new 16000 (samples bytes) ≡ ok payload)
      × (duration_ms payload ≡ d)
unfolding Payload.new duration_ms any_not_finite sample_duration_ms
accepted_pcm_is_payload bytes d h =
    let (whole, finite, duration) = pcm_accepted bytes d h in
    (record { sample_rate_hz = 16000; samples = samples bytes }, made finite, counted ∙ duration)
  where
    made :
        any_not_finite bytes ≡ false
        → Payload.new 16000 (samples bytes)
          ≡ ok (record { sample_rate_hz = 16000; samples = samples bytes })
    made finite = rw (finite, any_not_finite) refl

    counted :
        duration_ms (record { sample_rate_hz = 16000; samples = samples bytes })
        ≡ sample_duration_ms (length bytes / 4)
    counted = ap sample_duration_ms (length-samples bytes)
