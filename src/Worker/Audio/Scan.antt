-- ===== src/Worker/Audio/Scan.antt =====
-- The scan of a WAV file's chunks never reads out of bounds, and its fuel is enough.
use free_whisper.Prelude.{
  ℕ, suc, zero, ◌+◌, ◌/◌, ◌^◌, ◌≤◌, ◌<◌, ◌≡◌, refl, sym, ap, subst, ◌⊎◌, inl, inr, true, false,
  ◌&&◌, not, List, none, some, arith, ◌==◌, ltb, length, Bool-cases, Result, ok, err, ok_or, ◌>>=◌,
  refuse_if,
}
use free_whisper.Worker.Failure.{ApiFailure}
use free_whisper.Worker.Audio.{
  is_wave, riff, AudioEncoding, wav, pcm_f32le_mono_16khz, max_audio_duration_ms, Fault, refused,
  Format, Chunks, bad, sub, fmt_id, data_id, bytes_eq, is_none, checked_add, read_format,
  keep_chunk, read_chunk, more, scan, wrong_format, is_incomplete, any_not_finite, check_body,
  check_chunks, limit, validate_wav, validate_pcm_f32, validate_audio,
}
use free_whisper.Worker.Audio.Outcome.{
  Answers, Answers->>=, Any, Answers-ok, sub-Answers, read_le-Answers, refuse_if-Answers,
  ok_or->>=-Answers, refuse_if->>-Answers,
}

module _ (bytes : List ℕ) (small : length bytes < 2 ^ 63) where
  read_format-Answers :
      (chunk_start : ℕ)
      → chunk_start + 16 ≤ length bytes
      → Answers Any (read_format bytes chunk_start)
  unfolding read_format Answers
  read_format-Answers s h = Answers->>= Any Any _ _ (read_le-Answers 2 s bytes (omega arith)) λ a _.
      Answers->>= Any Any _ _ (read_le-Answers 2 (s + 2) bytes (omega arith)) λ b _.
        Answers->>= Any Any _ _ (read_le-Answers 4 (s + 4) bytes (omega arith))
          λ c _. Answers->>= Any Any _ _ (read_le-Answers 2 (s + 14) bytes (omega arith)) λ d _. tt

  keep_chunk-Answers :
      (id : List ℕ) (size start end : ℕ) (found : Chunks)
      → end ≡ start + size
      → end ≤ length bytes
      → Answers Any (keep_chunk bytes id size start end found)
  unfolding keep_chunk bad Answers
  keep_chunk-Answers id size start end found e h = elim (Bool-cases (bytes_eq id fmt_id)) [
    | inl is_fmt ↦ rw is_fmt (elim (Bool-cases (ltb size 16)) [
      | inl short ↦ rw short (_, refl)
      | inr long ↦ rw long (
          Answers->>= Any Any (read_format bytes start)
            (λ format. ok (record { format = some format; data_bytes = found.data_bytes }))
            (read_format-Answers start (ground arith)) (λ format _. tt {0}))
    ])
    | inr not_fmt ↦
        rw not_fmt (elim (Bool-cases (bytes_eq id data_id && is_none found.data_bytes)) [
          | inl first ↦ rw first (
              Answers->>= Any Any (sub start end bytes)
                (λ body. ok (record { format = found.format; data_bytes = some body }))
                (sub-Answers start end bytes (omega arith) h) (λ body _. tt {0}))
          | inr other ↦ rw other (tt {0})
        ])
  ]

  checked :
      (offset size : ℕ)
      → Answers
          (λ end. end ≡ offset + 8 + size)
          (ok_or (checked_add (offset + 8) size) (bad "WAV chunk overflows"))
  unfolding checked_add bad Answers
  checked offset size = elim (Bool-cases (ltb (offset + 8 + size) (2 ^ 64))) [
    | inl e ↦ rw e refl
    | inr e ↦ rw e (_, refl)
  ]

  -- One turn of the loop stays within the bytes, up to the padding byte, and moves on.
  abbrev Next : (offset : ℕ) → Chunks × ℕ → Type 0
  Next offset step = (offset + 8 ≤ step.1) × (step.1 ≤ length bytes + 1)

  read_chunk-Answers :
      (offset : ℕ) (found : Chunks)
      → offset + 8 ≤ length bytes
      → Answers (Next offset) (read_chunk bytes offset found)
  unfolding read_chunk bad Answers
  read_chunk-Answers offset found room =
      Answers->>= Any (Next offset) _ _
        (sub-Answers offset (offset + 4) bytes (omega arith) (omega arith))
        λ id _.
          Answers->>= Any (Next offset) _ _ (read_le-Answers 4 (offset + 4) bytes (omega arith))
            λ size _.
              Answers->>= (λ end. end ≡ offset + 8 + size) (Next offset) _ _ (checked offset size)
                λ end e.
                  Answers->>= (λ u. ltb (length bytes) end ≡ false) (Next offset)
                    (refuse_if (ltb (length bytes) end) _) _
                    (refuse_if-Answers (ltb (length bytes) end) _)
                    λ u fits.
                      Answers->>= Any (Next offset)
                        (keep_chunk bytes id size (offset + 8) end found) _
                        (keep_chunk-Answers id size (offset + 8) end found e (ground arith))
                        λ found' _. (omega arith, ground arith)

  more_room : (offset : ℕ) → more bytes offset ≡ true → offset + 8 ≤ length bytes
  unfolding more checked_add
  more_room offset e = elim (Bool-cases (ltb (offset + 8) (2 ^ 64))) [
    | inl t ↦ ground (arith, (rw (t, more) at e))
    | inr t ↦ ground (arith, (rw (t, more) at e))
  ]

  scan-Answers :
      (fuel offset : ℕ) (found : Chunks)
      → offset ≤ length bytes + 1
      → length bytes + 2 ≤ offset + fuel
      → Answers Any (scan fuel bytes offset found)
  unfolding scan Answers
  scan-Answers zero offset found h k = absurd (omega arith)
  scan-Answers (suc fuel) offset found h k = elim (Bool-cases (more bytes offset)) [
    | inl e ↦
        subst
          (λ m. Answers Any (elim m [
            | true ↦ read_chunk bytes offset found >>= λ step. scan fuel bytes step.1 step.0
            | false ↦ ok found
          ]))
          (sym e)
          (Answers->>= (Next offset) Any (read_chunk bytes offset found) _
            (read_chunk-Answers offset found (more_room offset e))
            λ step n. scan-Answers fuel step.1 step.0 n.1 (omega (arith, n.0)))
    | inr e ↦
        subst
          (λ m. Answers Any (elim m [
            | true ↦ read_chunk bytes offset found >>= λ step. scan fuel bytes step.1 step.0
            | false ↦ ok found
          ]))
          (sym e) tt
  ]

check_body-Answers : (format : Format) (body : List ℕ) → Answers Any (check_body format body)
unfolding check_body bad
check_body-Answers format body = refuse_if->>-Answers (wrong_format format) _ _ (
    refuse_if->>-Answers (is_incomplete body (format.bits_per_sample / 8)) _ _ (
      refuse_if->>-Answers ((format.format_code == 3) && any_not_finite body) _ _
        (Answers-ok {A = ℕ} _)))

check_chunks-Answers : (found : Chunks) → Answers Any (check_chunks found)
unfolding check_chunks bad
check_chunks-Answers found =
    ok_or->>=-Answers {B = ℕ} found.format _ _ λ format.
      ok_or->>=-Answers {B = ℕ} found.data_bytes _ _ λ body. check_body-Answers format body

-- The slices at the head are within a file that is long enough, and so is the first chunk.
is_wave-Answers : (bytes : List ℕ) → Answers (λ b. b ≡ true → 12 ≤ length bytes + 1) (is_wave bytes)
unfolding is_wave Answers
is_wave-Answers bytes = elim (Bool-cases (ltb (length bytes) 44)) [
  | inl short ↦ rw (short, is_wave) λ e. cc
  | inr long ↦
      rw (long, is_wave)
        (Answers->>= Any (λ b. b ≡ true → 12 ≤ length bytes + 1) (sub 0 4 bytes) _
          (sub-Answers 0 4 bytes (omega arith) (ground (arith, long)))
          λ head _. elim (Bool-cases (bytes_eq head riff)) [
            | inl e ↦ rw e (
                Answers->>= Any (λ b. b ≡ true → 12 ≤ length bytes + 1) (sub 8 12 bytes) _
                  (sub-Answers 8 12 bytes (omega arith) (ground (arith, long)))
                  λ kind _ t. ground (arith, long))
            | inr e ↦ rw e λ t. cc
          ])
]

validate_wav-Answers : (bytes : List ℕ) → length bytes < 2 ^ 63 → Answers Any (validate_wav bytes)
unfolding validate_wav bad Answers
validate_wav-Answers bytes small =
    Answers->>= (λ b. b ≡ true → 12 ≤ length bytes + 1) Any (is_wave bytes) _
      (is_wave-Answers bytes)
      λ riff_wave room.
        Answers->>= (λ u. not riff_wave ≡ false) Any (refuse_if (not riff_wave) _) _
          (refuse_if-Answers (not riff_wave) _)
          λ u is_one.
            Answers->>= Any Any
              (scan (suc (length bytes)) bytes 12 (record { format = none; data_bytes = none }))
              check_chunks
              (scan-Answers bytes small (suc (length bytes)) 12 _ (room (ground (arith, is_one)))
                (omega arith))
              (λ found _. check_chunks-Answers found)

validate_pcm_f32-Answers : (bytes : List ℕ) → Answers Any (validate_pcm_f32 bytes)
unfolding validate_pcm_f32 bad
validate_pcm_f32-Answers bytes =
    refuse_if->>-Answers (is_incomplete bytes 4) _ _
      (refuse_if->>-Answers (any_not_finite bytes) _ _ (Answers-ok {A = ℕ} _))

limit-Answers :
    (m : Result Fault ℕ)
    → Answers Any m
    → ((d : ℕ) × (d ≤ max_audio_duration_ms) × (limit m ≡ ok d))
      ⊎ ((f : ApiFailure) × (limit m ≡ err (refused f)))
unfolding limit Answers
limit-Answers (err e) h = inr (h.0, ap err h.1)
limit-Answers (ok d) h = elim (Bool-cases (ltb max_audio_duration_ms d)) [
  | inl long ↦ inr (rw long (_, refl))
  | inr fits ↦ inl (rw fits (d, ground (arith, fits), refl))
]

-- On any bytes that fit in memory, in either encoding, validation ends: it neither panics on an
-- index or a slice out of bounds nor runs out of fuel, but gives a duration of at most ten
-- minutes or a failure that the worker answers with.
pub validate_audio_answers :
    (encoding : AudioEncoding) (bytes : List ℕ)
    → length bytes < 2 ^ 63
    → ((d : ℕ) × (d ≤ max_audio_duration_ms) × (validate_audio encoding bytes ≡ ok d))
      ⊎ ((f : ApiFailure) × (validate_audio encoding bytes ≡ err (refused f)))
unfolding validate_audio
validate_audio_answers wav bytes small = limit-Answers _ (validate_wav-Answers bytes small)
validate_audio_answers pcm_f32le_mono_16khz bytes small =
    limit-Answers _ (validate_pcm_f32-Answers bytes)
