-- ===== src/Worker/Multipart.antt =====
-- apps/worker/src/lib.rs, `parse_multipart`. The fields that axum reads from the body are given as
-- a list, up to the first that is broken: the text and the bytes of a field are none where reading
-- them fails. `serde_json::from_str` is the parameter `from_str`. The two messages that quote an
-- error of these are given as a whole by the error.
pub mod Once
mod Tests
use Prim.Native.String.{String}
use free_whisper.Prelude.{
  ℕ, ◌*◌, Bool, true, false, List, [], ◌∷◌, Option, none, some, ltb, if◌then◌else◌, length, Result,
  ok, err, ok_or, ◌>>=◌, ◌>>◌, refuse_if, map_err, Text, codes, text_eq,
}
use free_whisper.Worker.Failure.{ApiFailure, failure, invalid, invalid_request, request_too_large}
use free_whisper.Worker.Audio.{
  AudioEncoding, wav, pcm_f32le_mono_16khz, Fault, refused, bad, validate_audio,
}
use free_whisper.Worker.Options.{TranscriptionOptions}

abbrev pub max_request_bytes : ℕ
max_request_bytes = 32 * 1024 * 1024

pub record Field : Type 0 where
  pub name : Text
  pub text : Option Text
  pub bytes : Option (List ℕ)

pub data Item : Type 0 where
  field : Field → Item
  broken : (message : String) → Item

-- The variables `options`, `encoding` and `audio` of the loop.
pub record Parts : Type 0 where
  pub options : Option TranscriptionOptions
  pub encoding : Option AudioEncoding
  pub audio : Option (List ℕ)

pub record MultipartInput : Type 0 where
  pub options : TranscriptionOptions
  pub encoding : AudioEncoding
  pub bytes : List ℕ
  pub duration_ms : ℕ

abbrev pub is_set {ℓ} : {A : Type ℓ} → Option A → Bool
is_set none = false
is_set (some a) = true

unfoldable pub parse_encoding : Text → Result Fault AudioEncoding
unfolding bad
parse_encoding text =
    if text_eq text (codes "wav")
    then ok wav
    else if text_eq text (codes "pcm_f32le_mono_16khz")
    then ok pcm_f32le_mono_16khz
    else err (bad "unsupported audio_encoding")

unfoldable pub set_encoding : Parts → Field → Result Fault Parts
unfolding parse_encoding bad
set_encoding parts part = do
  refuse_if (is_set parts.encoding) (bad "audio_encoding was sent more than once")
  text ← ok_or part.text (bad "audio_encoding is not UTF-8")
  encoding ← parse_encoding text
  ok (record parts { encoding = some encoding })

unfoldable pub set_audio : Parts → Field → Result Fault Parts
unfolding bad
set_audio parts part = do
  refuse_if (is_set parts.audio) (bad "audio was sent more than once")
  bytes ← ok_or part.bytes (bad "audio could not be read")
  refuse_if (ltb max_request_bytes (length bytes))
      (refused (failure 413 request_too_large "audio exceeds the 32 MiB request limit" false none))
  ok (record parts { audio = some bytes })

unfoldable pub finish_parts : Parts → Result Fault MultipartInput
unfolding bad
finish_parts parts = do
  options ← ok_or parts.options (bad "missing options field")
  encoding ← ok_or parts.encoding (bad "missing audio_encoding field")
  bytes ← ok_or parts.audio (bad "missing audio field")
  duration_ms ← validate_audio encoding bytes
  ok (record { options = options; encoding = encoding; bytes = bytes; duration_ms = duration_ms })

module _ (from_str : Text → Result String TranscriptionOptions) where
  unfoldable pub set_options : Parts → Field → Result Fault Parts
  unfolding bad
  set_options parts part = do
    refuse_if (is_set parts.options) (bad "options was sent more than once")
    text ← ok_or part.text (bad "options is not UTF-8")
    options ←
        map_err (λ message. refused (failure 400 invalid_request message false none))
          (from_str text)
    ok (record parts { options = some options })

  unfoldable pub set_field : Parts → Field → Result Fault Parts
  unfolding set_options set_encoding set_audio bad
  set_field parts part =
      if text_eq part.name (codes "options")
      then set_options parts part
      else if text_eq part.name (codes "audio_encoding")
      then set_encoding parts part
      else if text_eq part.name (codes "audio")
      then set_audio parts part
      else err (bad "multipart request contains an unknown field")

  unfoldable pub read_items : Parts → List Item → Result Fault Parts
  unfolding set_field
  read_items parts [] = ok parts
  read_items parts (broken message ∷ items) =
      err (refused (failure 400 invalid_request message false none))
  read_items parts (field part ∷ items) = set_field parts part >>= λ parts'. read_items parts' items

  unfoldable pub parse_multipart : List Item → Result Fault MultipartInput
  unfolding read_items finish_parts
  parse_multipart items =
      read_items (record { options = none; encoding = none; audio = none }) items >>= finish_parts
