-- ===== src/Worker/Audio/Container.antt =====
-- The WAV file that the worker makes of PCM bytes for whisper.cpp, read back by its own validation.
use free_whisper.Prelude.{
  ℕ, suc, ◌+◌, ◌-◌, ◌/◌, ◌%◌, ◌^◌, ◌≤◌, ◌<◌, ◌≡◌, refl, sym, ap, ◌∙◌, subst, true, false, List, [],
  ◌++◌, none, some, arith, inl, inr, length, take, Bool-cases, Result, ok, err, ok_eq,
  take-length-append, append-nil,
}
use free_whisper.Domain.Payload.{saturating_mul}
use free_whisper.Worker.Audio.{
  is_wave, wav, pcm_f32le_mono_16khz, Fault, Format, Chunks, sub, read_le, from_le_bytes,
  checked_add, sample_duration_ms, read_format, bytes_eq, data_id, is_none, keep_chunk, read_chunk,
  more, scan, wrong_format, is_incomplete, any_not_finite, check_body, check_chunks, limit,
  validate_wav, validate_pcm_f32, validate_audio, max_audio_duration_ms,
}
use free_whisper.Worker.Audio.Writer.{le_bytes, wav_header, pcm_f32le_to_wav}

pub from_le_bytes-le_bytes : (n : ℕ) → n < 2 ^ 32 → from_le_bytes (le_bytes 4 n) ≡ n
unfolding from_le_bytes le_bytes
from_le_bytes-le_bytes n h = omega arith

-- The format that the header names.
abbrev float_mono : Format
float_mono = record { format_code = 3; channels = 1; sample_rate = 16000; bits_per_sample = 32 }

scan-more :
    (fuel : ℕ) (bytes : List ℕ) (offset : ℕ) (found : Chunks) (step : Chunks × ℕ)
    → more bytes offset ≡ true
    → read_chunk bytes offset found ≡ ok step
    → scan (suc fuel) bytes offset found ≡ scan fuel bytes step.1 step.0
unfolding scan
scan-more fuel bytes offset found step e r = rw (e, scan) (rw r refl)

scan_done :
    (fuel : ℕ) (bytes : List ℕ) (offset : ℕ) (found : Chunks)
    → more bytes offset ≡ false
    → scan (suc fuel) bytes offset found ≡ ok found
unfolding scan
scan_done fuel bytes offset found e = rw (e, scan) refl

module _ (pcm : List ℕ) (small : length pcm + 36 < 2 ^ 32) where
  file : List ℕ
  file = wav_header (length pcm) ++ pcm

  length-file : length file ≡ 44 + length pcm
  unfolding file wav_header le_bytes
  length-file = omega arith

  is_wave-file : is_wave file ≡ ok true
  unfolding file wav_header le_bytes is_wave bytes_eq sub
  is_wave-file = ground arith

  first_chunk :
      read_chunk file 12 (record { format = none; data_bytes = none })
      ≡ ok (record { format = some float_mono; data_bytes = none }, 36)
  unfolding file wav_header le_bytes read_chunk sub read_le from_le_bytes checked_add keep_chunk
      read_format bytes_eq
  first_chunk = ground arith

  size_bytes : sub 40 44 file ≡ ok (le_bytes 4 (length pcm))
  unfolding file wav_header sub le_bytes
  size_bytes = ground arith

  size_field : read_le 4 40 file ≡ ok (length pcm)
  unfolding read_le
  size_field = rw size_bytes (ap ok (from_le_bytes-le_bytes (length pcm) (omega arith)))

  take_all : (xs : List ℕ) (n : ℕ) → n ≡ length xs → take n xs ≡ xs
  take_all xs n e = rw e (ap (take (length xs)) (sym (append-nil xs)) ∙ take-length-append xs [])

  body_field : sub 44 (44 + length pcm) file ≡ ok pcm
  unfolding file wav_header sub le_bytes
  body_field = ground (arith, take_all pcm (44 + length pcm - 44) (omega arith))

  id_field : sub 36 40 file ≡ ok data_id
  unfolding file wav_header sub le_bytes
  id_field = ground arith

  second_chunk :
      read_chunk file 36 (record { format = some float_mono; data_bytes = none })
      ≡ ok (
        record { format = some float_mono; data_bytes = some pcm },
        44 + length pcm + length pcm % 2,
      )
  unfolding read_chunk keep_chunk bytes_eq is_none checked_add
  second_chunk = ground (arith, id_field, size_field, body_field, length-file)

  goes_on :
      more file 12 ≡ true
      × more file 36 ≡ true
      × more file (44 + length pcm + length pcm % 2) ≡ false
  unfolding more checked_add
  goes_on = ground (arith, length-file)

  scan-file :
      (fuel : ℕ)
      → scan (suc (suc (suc fuel))) file 12 (record { format = none; data_bytes = none })
        ≡ ok (record { format = some float_mono; data_bytes = some pcm })
  scan-file fuel =
      scan-more (suc (suc fuel)) file 12 _ _ goes_on.0 first_chunk
      ∙ scan-more (suc fuel) file 36 _ _ goes_on.1 second_chunk
      ∙ scan_done fuel file (44 + length pcm + length pcm % 2) _ goes_on.2

  scan_enough :
      (fuel : ℕ)
      → 3 ≤ fuel
      → scan fuel file 12 (record { format = none; data_bytes = none })
        ≡ ok (record { format = some float_mono; data_bytes = some pcm })
  scan_enough fuel h =
      subst
        (λ n.
          scan n file 12 (record { format = none; data_bytes = none })
          ≡ ok (record { format = some float_mono; data_bytes = some pcm }))
        (omega arith) (scan-file (fuel - 3))

  module _ (whole : is_incomplete pcm 4 ≡ false) (finite : any_not_finite pcm ≡ false) where
    validate_wav-file : validate_wav file ≡ ok (sample_duration_ms (length pcm / 4))
    unfolding validate_wav check_chunks check_body wrong_format
    validate_wav-file =
        rw
          (
            is_wave-file,
            scan_enough (suc (length file)) (omega (arith, length-file)),
            whole,
            finite,
          )
          refl

    pcm_f32le_to_wav-file : pcm_f32le_to_wav pcm ≡ ok file
    unfolding pcm_f32le_to_wav file
    pcm_f32le_to_wav-file = ground (arith, whole)

pub pcm_accepted :
    (pcm : List ℕ) (d : ℕ)
    → validate_pcm_f32 pcm ≡ ok d
    → (is_incomplete pcm 4 ≡ false)
      × (any_not_finite pcm ≡ false)
      × (sample_duration_ms (length pcm / 4) ≡ d)
unfolding validate_pcm_f32
pcm_accepted pcm d h = elim (Bool-cases (is_incomplete pcm 4)) [
  | inl e ↦ absurd (ok≢err (rw e at h))
  | inr e ↦ elim (Bool-cases (any_not_finite pcm)) [
    | inl f ↦ absurd (ok≢err (rw (e, f) at h))
    | inr f ↦ (e, f, ok_eq (rw (e, f) at h))
  ]
]
  where
    ok≢err : {d : ℕ} {e : Fault} → ◌≡◌ {A = Result Fault ℕ} (err e) (ok d) → ⊥
    ok≢err p = cc

limit-eq-ok :
    (m : Result Fault ℕ) (d : ℕ) → limit m ≡ ok d → (m ≡ ok d) × (d ≤ max_audio_duration_ms)
unfolding limit
limit-eq-ok (err e) d h = cc
limit-eq-ok (ok c) d h = ground arith

-- Ten minutes of samples fit into the 32-bit sizes of a WAV file.
ten_minutes_fit :
    (bytes : ℕ) → sample_duration_ms (bytes / 4) ≤ max_audio_duration_ms → bytes + 36 < 2 ^ 32
unfolding sample_duration_ms saturating_mul
ten_minutes_fit bytes h = omega arith

-- Raw samples that validation accepts are always converted for whisper.cpp, and the WAV file made
-- of them passes validation as well, with the same duration.
pub accepted_pcm_converts :
    (pcm : List ℕ) (d : ℕ)
    → validate_audio pcm_f32le_mono_16khz pcm ≡ ok d
    → (bytes : List ℕ) × (pcm_f32le_to_wav pcm ≡ ok bytes) × (validate_audio wav bytes ≡ ok d)
unfolding validate_audio
accepted_pcm_converts pcm d h =
    let (valid, short) = limit-eq-ok (validate_pcm_f32 pcm) d h in
    let (whole, finite, duration) = pcm_accepted pcm d valid in
    let small = ten_minutes_fit (length pcm) (rw duration short) in
    (
      file pcm small,
      pcm_f32le_to_wav-file pcm small whole finite,
      rw (validate_wav-file pcm small whole finite, duration) (rw valid at h),
    )
