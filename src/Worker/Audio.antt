-- ===== src/Worker/Audio.antt =====
-- apps/worker/src/lib.rs: `validate_audio`, `validate_pcm_f32` and `validate_wav`. Bytes are numbers below 256. An index or a slice out of bounds panics, and
-- the loop over the chunks runs on fuel: both are faults of their own, apart from the failures
-- that the worker answers with. `usize` has 64 bits, so that `usize::try_from(u32)` succeeds.
mod Outcome
pub mod Writer
pub mod Scan
pub mod Container
pub mod Samples
mod Tests
use Prim.Native.String.{String}
use free_whisper.Prelude.{
  ℕ, suc, zero, ◌+◌, ◌-◌, ◌*◌, ◌/◌, ◌%◌, ◌^◌, Bool, true, false, not, ◌&&◌, ◌||◌, List, [], ◌∷◌,
  ◌++◌, Option, none, some, any, is_empty, ltb, leb, ◌==◌, if◌then◌else◌, length, take, drop,
  get_elem?, Result, ok, err, ok_or, ◌>>=◌, ◌>>◌, refuse_if,
}
use free_whisper.Domain.Payload.{is_finite, saturating_mul}
use free_whisper.Worker.Failure.{ApiFailure, failure, invalid, audio_too_long}

pub data AudioEncoding : Type 0 where
  wav pcm_f32le_mono_16khz : AudioEncoding

pub data Fault : Type 0 where
  refused : ApiFailure → Fault
  panic out_of_fuel : Fault

abbrev pub max_audio_duration_ms : ℕ
max_audio_duration_ms = 10 * 60 * 1000

-- `Err(invalid_request(message))`.
unfoldable pub bad : String → Fault
bad message = refused (invalid message)

-- `uN::from_le_bytes`.
unfoldable pub from_le_bytes : List ℕ → ℕ
from_le_bytes [] = 0
from_le_bytes (b ∷ bs) = b + 256 * from_le_bytes bs

-- `&bytes[start..end]`.
unfoldable pub sub : (start end : ℕ) → List ℕ → Result Fault (List ℕ)
sub start end bytes =
    if leb start end && leb end (length bytes)
    then ok (take (end - start) (drop start bytes))
    else err panic

-- `uN::from_le_bytes([bytes[at], …])`.
unfoldable pub read_le : (width at : ℕ) → List ℕ → Result Fault ℕ
unfolding sub from_le_bytes
read_le width at bytes = sub at (at + width) bytes >>= λ field. ok (from_le_bytes field)

unfoldable pub checked_add : ℕ → ℕ → Option ℕ
checked_add a b = if ltb (a + b) (2 ^ 64) then some (a + b) else none

-- The samples of `chunks_exact(4)`.
unfoldable pub samples : List ℕ → List ℕ
unfolding from_le_bytes
samples (a ∷ b ∷ c ∷ d ∷ rest) = from_le_bytes (a ∷ b ∷ c ∷ d ∷ []) ∷ samples rest
samples _ = []

unfoldable pub any_not_finite : List ℕ → Bool
unfolding is_finite samples
any_not_finite bytes = any (λ sample. not (is_finite sample)) (samples bytes)

unfoldable pub sample_duration_ms : (count : ℕ) → ℕ
unfolding saturating_mul
sample_duration_ms count = saturating_mul count 1000 / 16000

-- Whether bytes are no whole number of samples, or none.
unfoldable pub is_incomplete : List ℕ → (bytes_per_sample : ℕ) → Bool
is_incomplete bytes bytes_per_sample = is_empty bytes || not (length bytes % bytes_per_sample == 0)

unfoldable pub validate_pcm_f32 : List ℕ → Result Fault ℕ
unfolding is_incomplete any_not_finite sample_duration_ms bad
validate_pcm_f32 bytes = do
  refuse_if (is_incomplete bytes 4) (bad "PCM must contain non-empty f32 little-endian samples")
  refuse_if (any_not_finite bytes) (bad "PCM contains a non-finite sample")
  ok (sample_duration_ms (length bytes / 4))

pub record Format : Type 0 where
  pub format_code : ℕ
  pub channels : ℕ
  pub sample_rate : ℕ
  pub bits_per_sample : ℕ

-- The loop's variables `format` and `data`.
pub record Chunks : Type 0 where
  pub format : Option Format
  pub data_bytes : Option (List ℕ)

unfoldable pub bytes_eq : List ℕ → List ℕ → Bool
bytes_eq [] [] = true
bytes_eq [] (c ∷ cs) = false
bytes_eq (b ∷ bs) [] = false
bytes_eq (b ∷ bs) (c ∷ cs) = (b == c) && bytes_eq bs cs

-- b"RIFF", b"WAVE", b"fmt " and b"data".
abbrev pub riff : List ℕ
riff = 82 ∷ 73 ∷ 70 ∷ 70 ∷ []

abbrev pub wave : List ℕ
wave = 87 ∷ 65 ∷ 86 ∷ 69 ∷ []

abbrev pub fmt_id : List ℕ
fmt_id = 102 ∷ 109 ∷ 116 ∷ 32 ∷ []

abbrev pub data_id : List ℕ
data_id = 100 ∷ 97 ∷ 116 ∷ 97 ∷ []

unfoldable pub read_format : List ℕ → (chunk_start : ℕ) → Result Fault Format
unfolding read_le
read_format bytes chunk_start = do
  format_code ← read_le 2 chunk_start bytes
  channels ← read_le 2 (chunk_start + 2) bytes
  sample_rate ← read_le 4 (chunk_start + 4) bytes
  bits_per_sample ← read_le 2 (chunk_start + 14) bytes
  ok (record {
    format_code = format_code;
    channels = channels;
    sample_rate = sample_rate;
    bits_per_sample = bits_per_sample;
  })

unfoldable pub is_none : Option (List ℕ) → Bool
is_none none = true
is_none (some bytes) = false

unfoldable pub keep_chunk :
    List ℕ
    → (chunk_id : List ℕ) (chunk_size chunk_start chunk_end : ℕ) → Chunks
    → Result Fault Chunks
unfolding read_format sub bytes_eq is_none bad
keep_chunk bytes chunk_id chunk_size chunk_start chunk_end found =
    if bytes_eq chunk_id fmt_id
    then (do
      refuse_if (ltb chunk_size 16) (bad "WAV fmt chunk is too short")
      format ← read_format bytes chunk_start
      ok (record { format = some format; data_bytes = found.data_bytes }))
    else if bytes_eq chunk_id data_id && is_none found.data_bytes
    then (sub chunk_start chunk_end bytes >>= λ body.
        ok (record { format = found.format; data_bytes = some body }))
    else ok found

-- The body of the loop: what was found so far, and the next offset.
unfoldable pub read_chunk : List ℕ → (offset : ℕ) → Chunks → Result Fault (Chunks × ℕ)
unfolding sub read_le checked_add keep_chunk bad
read_chunk bytes offset found = do
  chunk_id ← sub offset (offset + 4) bytes
  chunk_size ← read_le 4 (offset + 4) bytes
  chunk_end ← ok_or (checked_add (offset + 8) chunk_size) (bad "WAV chunk overflows")
  refuse_if (ltb (length bytes) chunk_end) (bad "WAV chunk is truncated")
  found' ← keep_chunk bytes chunk_id chunk_size (offset + 8) chunk_end found
  ok (found', chunk_end + chunk_size % 2)

unfoldable pub more : List ℕ → (offset : ℕ) → Bool
unfolding checked_add
more bytes offset = elim (checked_add offset 8) [ none ↦ false | some end ↦ leb end (length bytes) ]

unfoldable pub scan : (fuel : ℕ) → List ℕ → (offset : ℕ) → Chunks → Result Fault Chunks
unfolding more read_chunk
scan zero bytes offset found = err out_of_fuel
scan (suc fuel) bytes offset found = elim (more bytes offset) [
  | true ↦ read_chunk bytes offset found >>= λ step. scan fuel bytes step.1 step.0
  | false ↦ ok found
]

unfoldable pub wrong_format : Format → Bool
wrong_format format =
    not (format.channels == 1)
    || not (format.sample_rate == 16000)
    || not (
        ((format.format_code == 1) && (format.bits_per_sample == 16))
        || ((format.format_code == 3) && (format.bits_per_sample == 32)))

unfoldable pub check_body : Format → List ℕ → Result Fault ℕ
unfolding wrong_format is_incomplete any_not_finite sample_duration_ms bad
check_body format body = do
  refuse_if (wrong_format format) (bad "WAV must be mono 16 kHz PCM16 or IEEE-float32")
  refuse_if (is_incomplete body (format.bits_per_sample / 8)) (bad "WAV data is incomplete")
  refuse_if ((format.format_code == 3) && any_not_finite body)
      (bad "WAV contains a non-finite float sample")
  ok (sample_duration_ms (length body / (format.bits_per_sample / 8)))

unfoldable pub check_chunks : Chunks → Result Fault ℕ
unfolding check_body bad
check_chunks found = do
  format ← ok_or found.format (bad "WAV is missing fmt chunk")
  body ← ok_or found.data_bytes (bad "WAV is missing data chunk")
  check_body format body

-- The test at the head of `validate_wav`, with `||` as it stops: a slice is taken only where the
-- tests before it let it be.
unfoldable pub is_wave : List ℕ → Result Fault Bool
unfolding sub bytes_eq
is_wave bytes = elim (ltb (length bytes) 44) [
  | true ↦ ok false
  | false ↦ sub 0 4 bytes >>= λ head.
      if bytes_eq head riff then (sub 8 12 bytes >>= λ kind. ok (bytes_eq kind wave)) else ok false
]

unfoldable pub validate_wav : List ℕ → Result Fault ℕ
unfolding is_wave scan check_chunks bad
validate_wav bytes = do
  riff_wave ← is_wave bytes
  refuse_if (not riff_wave) (bad "audio is not a RIFF/WAVE file")
  found ← scan (suc (length bytes)) bytes 12 (record { format = none; data_bytes = none })
  check_chunks found

unfoldable pub limit : Result Fault ℕ → Result Fault ℕ
limit result = do
  duration_ms ← result
  refuse_if (ltb max_audio_duration_ms duration_ms)
      (refused (failure 413 audio_too_long "audio exceeds the ten-minute limit" false none))
  ok duration_ms

unfoldable pub validate_audio : AudioEncoding → List ℕ → Result Fault ℕ
unfolding validate_pcm_f32 validate_wav limit
validate_audio pcm_f32le_mono_16khz bytes = limit (validate_pcm_f32 bytes)
validate_audio wav bytes = limit (validate_wav bytes)
