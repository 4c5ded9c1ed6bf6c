-- ===== src/Providers/Client/Accepted.antt =====
-- crates/providers/src/lib.rs and apps/worker/src/lib.rs: what the client sends, the worker reads.
use Prim.Native.String.{String}
use free_whisper.Prelude.{
  ℕ, suc, ◌*◌, ◌/◌, ◌%◌, ◌^◌, ◌-◌, min, ◌≤◌, ◌<◌, ◌≡◌, ◌≢◌, ◌∙◌, refl, ap, subst, arith, false, not,
  ltb, ◌==◌, List, [], ◌∷◌, Option, some, any, All, length, Result, ok, ok_or, ok_or-eq-ok, ok_eq,
  >>=-eq-ok, refuse_if, refuse_if-eq-ok, Text, codes, text_eq,
}
use free_whisper.Domain.Payload.{PcmF32Mono, is_finite, saturating_mul, duration_ms}
use free_whisper.Worker.Audio.{
  pcm_f32le_mono_16khz, samples, any_not_finite, sample_duration_ms, is_incomplete,
  validate_pcm_f32, validate_audio, limit,
}
use free_whisper.Worker.Audio.Writer.{le_bytes}
use free_whisper.Worker.Options.{TranscriptionOptions}
use free_whisper.Worker.Multipart.{
  Item, field, MultipartInput, parse_multipart, read_items, set_field, set_options, set_encoding,
  set_audio, parse_encoding, finish_parts,
}
use free_whisper.Providers.Error.{protocol}
use free_whisper.Providers.Client.{
  text_field, TranscriptionRequest, options_from_request, encode_samples, request_form,
}

samples-encode_samples : (xs : List ℕ) → All (λ x. x < 2 ^ 32) xs → samples (encode_samples xs) ≡ xs
unfolding samples encode_samples le_bytes
samples-encode_samples [] h = refl
samples-encode_samples (x ∷ xs) h =
    rw (samples-encode_samples xs h.1) (ap (λ y. y ∷ xs) (omega (arith, h.0)))

length-encode_samples : (xs : List ℕ) → length (encode_samples xs) ≡ 4 * length xs
unfolding encode_samples le_bytes
length-encode_samples [] = refl
length-encode_samples (x ∷ xs) = omega (arith, length-encode_samples xs)

-- The worker's limits hold of so many samples.
short_enough :
    (n : ℕ) → 4 * n ≤ 32 * 1024 * 1024 → ltb 600000 (min (n * 1000) (2 ^ 64 - 1) / 16000) ≡ false
short_enough n h = ground arith

multiple : (n k : ℕ) → n ≡ 4 * suc k → not (n % 4 == 0) ≡ false
multiple n k h = ground (arith, h)

is_whole : (xs : List ℕ) → xs ≢ [] → is_incomplete (encode_samples xs) 4 ≡ false
unfolding is_incomplete encode_samples le_bytes
is_whole [] h = absurd (h refl)
is_whole (x ∷ xs) h = multiple _ (length xs) (omega (arith, length-encode_samples xs))

module _ (xs : List ℕ) (words : All (λ x. x < 2 ^ 32) xs)
    (finite : any (λ x. not (is_finite x)) xs ≡ false) (some_audio : xs ≢ [])
    (fits : 4 * length xs ≤ 32 * 1024 * 1024) where
  all_finite : any_not_finite (encode_samples xs) ≡ false
  unfolding any_not_finite
  all_finite = rw (samples-encode_samples xs words) finite

  quarter : length (encode_samples xs) / 4 ≡ length xs
  quarter = omega (arith, length-encode_samples xs)

  validate_pcm-encode_samples :
      validate_pcm_f32 (encode_samples xs) ≡ ok (sample_duration_ms (length xs))
  unfolding validate_pcm_f32
  validate_pcm-encode_samples = rw (is_whole xs some_audio, all_finite, quarter) refl

  validate_audio-encode_samples :
      validate_audio pcm_f32le_mono_16khz (encode_samples xs) ≡ ok (sample_duration_ms (length xs))
  unfolding validate_audio limit sample_duration_ms saturating_mul
  validate_audio-encode_samples =
      rw (validate_pcm-encode_samples, short_enough (length xs) fits) refl

not_too_long : (n : ℕ) → n ≤ 32 * 1024 * 1024 → ltb (32 * 1024 * 1024) n ≡ false
not_too_long n h = ground arith

abbrev pub input : TranscriptionOptions → TranscriptionRequest → MultipartInput
input options request = record {
  options = options;
  encoding = pcm_f32le_mono_16khz;
  bytes = encode_samples request.audio.samples;
  duration_ms = duration_ms request.audio;
}

is_16_khz :
    (to_milli : ℕ → ℕ) (request : TranscriptionRequest) (options : TranscriptionOptions)
    → options_from_request to_milli request ≡ ok options
    → request.audio.sample_rate_hz ≡ 16000
unfolding options_from_request
is_16_khz to_milli request options h =
    let (a, rate, rest) =
      >>=-eq-ok (refuse_if (not (request.audio.sample_rate_hz == 16000)) protocol) _ h in
    ground (arith, refuse_if-eq-ok _ _ rate)

duration-sample_duration :
    (audio : PcmF32Mono)
    → audio.sample_rate_hz ≡ 16000
    → sample_duration_ms (length audio.samples) ≡ duration_ms audio
unfolding sample_duration_ms duration_ms
duration-sample_duration audio rate = rw rate refl

-- The worker's reading of the three fields.
read_form :
    (from_str : Text → Result String TranscriptionOptions) (from_utf8 : List ℕ → Option Text)
    → (json : Text) (options : TranscriptionOptions) (bytes : List ℕ) (duration : ℕ)
    → from_str json ≡ ok options
    → length bytes ≤ 32 * 1024 * 1024
    → validate_audio pcm_f32le_mono_16khz bytes ≡ ok duration
    → parse_multipart from_str (
        text_field (codes "options") json
        ∷ text_field (codes "audio_encoding") (codes "pcm_f32le_mono_16khz")
        ∷ field (record { name = codes "audio"; text = from_utf8 bytes; bytes = some bytes })
        ∷ [])
      ≡ ok (record {
        options = options;
        encoding = pcm_f32le_mono_16khz;
        bytes = bytes;
        duration_ms = duration;
      })
unfolding parse_multipart read_items set_field set_options set_encoding set_audio parse_encoding
    finish_parts text_eq
read_form from_str from_utf8 json options bytes duration read fits valid =
    rw (read, not_too_long (length bytes) fits, valid) refl

module _ (to_milli : ℕ → ℕ) (to_string : TranscriptionOptions → Option Text)
    (from_utf8 : List ℕ → Option Text) (from_str : Text → Result String TranscriptionOptions) where
  -- Where the client makes a form of a request whose audio is not empty, has finite samples of 32
  -- bits and is of at most 32 MiB, and the worker's JSON reads these options back, the worker reads
  -- of that form the options that the client meant, the bytes of the samples, from which it decodes
  -- the same samples, and the audio's own duration.
  pub parse_multipart-request_form :
      (request : TranscriptionRequest) (form : List Item)
      → ((options : TranscriptionOptions) (json : Text)
          → options_from_request to_milli request ≡ ok options
          → to_string options ≡ some json
          → from_str json ≡ ok options)
      → request_form to_milli to_string from_utf8 request ≡ ok form
      → All (λ x. x < 2 ^ 32) request.audio.samples
      → any (λ x. not (is_finite x)) request.audio.samples ≡ false
      → request.audio.samples ≢ []
      → 4 * length request.audio.samples ≤ 32 * 1024 * 1024
      → (options : TranscriptionOptions) × (options_from_request to_milli request ≡ ok options)
        × (parse_multipart from_str form ≡ ok (input options request))
        × (samples (encode_samples request.audio.samples) ≡ request.audio.samples)
  unfolding request_form parse_multipart
  parse_multipart-request_form request form reads_back made words finite some_audio fits =
      let (options, meant, h) = >>=-eq-ok (options_from_request to_milli request) _ made in
      let (json, written, h) = >>=-eq-ok (ok_or (to_string options) protocol) _ h in
      let text : from_str json ≡ ok options =
        reads_back options json meant (ok_or-eq-ok _ _ written) in
      (
        options,
        meant,
        subst (λ f. parse_multipart from_str f ≡ ok (input options request)) (ok_eq h)
            (read_form from_str from_utf8 json options (encode_samples request.audio.samples)
              (duration_ms request.audio) text
              (omega (arith, fits, length-encode_samples request.audio.samples))
              (validate_audio-encode_samples request.audio.samples words finite some_audio fits
                ∙ ap ok (
                    duration-sample_duration request.audio
                      (is_16_khz to_milli request options meant)))),
        samples-encode_samples request.audio.samples words,
      )
