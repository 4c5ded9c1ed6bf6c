-- ===== src/Worker/Multipart/Tests.antt =====
-- A request with its three fields, the audio first.
use Prim.Native.String.{String}
use free_whisper.Prelude.{
  ◌*◌, ◌≡◌, refl, ◌≤◌, false, List, [], ◌∷◌, none, some, length, Result, ok, err, Text, codes,
  text_eq,
}
use free_whisper.Worker.Audio.{pcm_f32le_mono_16khz, validate_audio, validate_pcm_f32, limit}
use free_whisper.Worker.Options.{LanguageRequest, TranscriptionOptions}
use free_whisper.Worker.Multipart.{Item, field, MultipartInput, parse_multipart}
use free_whisper.Worker.Multipart.Once.{accepted_has_three_fields}

abbrev options : TranscriptionOptions
options = record {
  request_id = 7;
  language = LanguageRequest.auto;
  prompt_terms = [];
  temperature_milli = 0;
  beam_size = 5;
  word_timestamps = false;
}

-- A decoder that knows one text.
abbrev from_str : Text → Result String TranscriptionOptions
from_str [] = err "invalid options JSON: EOF"
from_str (c ∷ text) = ok options

abbrev items : List Item
items =
    field (record { name = codes "audio"; text = none; bytes = some (0 ∷ 0 ∷ 0 ∷ 0 ∷ []) })
    ∷ field (record { name = codes "options"; text = some (codes "{}"); bytes = none })
    ∷ field (record {
      name = codes "audio_encoding";
      text = some (codes "pcm_f32le_mono_16khz");
      bytes = none;
    })
    ∷ []

abbrev input : MultipartInput
input = record {
  options = options;
  encoding = pcm_f32le_mono_16khz;
  bytes = 0 ∷ 0 ∷ 0 ∷ 0 ∷ [];
  duration_ms = 0;
}

parsed : parse_multipart from_str items ≡ ok input
unfolding parse_multipart text_eq validate_audio validate_pcm_f32 limit
parsed = refl

accepted_has_three_fields_example :
    (length items ≡ 3)
    × (length input.bytes ≤ 32 * 1024 * 1024)
    × (validate_audio input.encoding input.bytes ≡ ok input.duration_ms)
accepted_has_three_fields_example = accepted_has_three_fields from_str items input parsed
