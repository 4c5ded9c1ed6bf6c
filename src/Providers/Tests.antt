-- ===== src/Providers/Tests.antt =====
-- crates/providers/src/lib.rs: runs of the model on small inputs.
use Prim.Native.String.{String}
use free_whisper.Prelude.{
  ℕ, ◌≤◌, ◌≡◌, refl, ap, arith, any, not, true, false, List, [], ◌∷◌, ◌++◌, Option, none, some,
  Memᴰ, Result, ok, err, ok_eq, Text, codes, text_eq, byte_len,
}
use free_whisper.Prelude.Str.{ends_with, starts_with, trim}
use free_whisper.Domain.Language.{LanguageSelection, parse_model_id}
use free_whisper.Domain.Payload.{is_finite}
use free_whisper.Worker.Audio.{samples}
use free_whisper.Worker.Options.{LanguageRequest, TranscriptionOptions}
use free_whisper.Worker.Multipart.{Item, field, parse_multipart}
use free_whisper.Providers.Error.{insecure_endpoint}
use free_whisper.Providers.Endpoint.{Url, ipv4, RemoteWorkerProvider, new_with_timeouts}
use free_whisper.Providers.Endpoint.Secure.{IsSecure, new_with_timeouts-IsSecure}
use free_whisper.Providers.Sidecar.{parse_worker_build_info, read_bound_address}
use free_whisper.Providers.Client.{
  TranscriptionRequest, options_from_request, encode_samples, request_form, text_field, ModelInfo,
  Response, read_models, ensure_model_ready,
}
use free_whisper.Providers.Client.Accepted.{input, parse_multipart-request_form}
use free_whisper.Providers.Client.Answers.{IsAnswer, ensure_model_ready_sound}

abbrev request : TranscriptionRequest
request = record {
  id = 7;
  audio = record { sample_rate_hz = 16000; samples = 0x3F000000 ∷ 0 ∷ [] };
  language = LanguageSelection.auto;
  decoding = record { temperature = 0; beam_size = 5; word_timestamps = false };
  prompt_terms = [];
}

abbrev options : TranscriptionOptions
options = record {
  request_id = 7;
  language = LanguageRequest.auto;
  prompt_terms = [];
  temperature_milli = 0;
  beam_size = 5;
  word_timestamps = false;
}

abbrev zero_milli : ℕ → ℕ
zero_milli temperature = 0

abbrev braces : TranscriptionOptions → Option Text
braces o = some (codes "{}")

abbrev no_text : List ℕ → Option Text
no_text bytes = none

abbrev known : Text → Result String TranscriptionOptions
known json = ok options

these_options : options_from_request zero_milli request ≡ ok options
unfolding options_from_request
these_options = refl

known_reads_back :
    (o : TranscriptionOptions) (json : Text)
    → options_from_request zero_milli request ≡ ok o
    → braces o ≡ some json
    → known json ≡ ok o
unfolding options_from_request
known_reads_back o json meant written = ap ok (ok_eq meant)

abbrev form : List Item
form =
    text_field (codes "options") (codes "{}")
    ∷ text_field (codes "audio_encoding") (codes "pcm_f32le_mono_16khz")
    ∷ field (record {
      name = codes "audio";
      text = none;
      bytes = some (0 ∷ 0 ∷ 0 ∷ 0x3F ∷ 0 ∷ 0 ∷ 0 ∷ 0 ∷ []);
    })
    ∷ []

form_made : request_form zero_milli braces no_text request ≡ ok form
unfolding request_form
form_made = refl

sound_is_finite : any (λ x. not (is_finite x)) (0x3F000000 ∷ 0 ∷ []) ≡ false
unfolding is_finite
sound_is_finite = refl

parse_multipart-request_form_example :
    (o : TranscriptionOptions) × (options_from_request zero_milli request ≡ ok o)
    × (parse_multipart known form ≡ ok (input o request))
    × (samples (encode_samples (0x3F000000 ∷ 0 ∷ [])) ≡ 0x3F000000 ∷ 0 ∷ [])
parse_multipart-request_form_example =
    parse_multipart-request_form zero_milli braces no_text known request form known_reads_back
      form_made (omega arith, (omega arith, tt)) sound_is_finite (λ e. cc) (omega arith)

abbrev home : Url
home = record {
  scheme = codes "http";
  username = [];
  password = none;
  host = some (ipv4 0x7F000001);
  path = codes "/";
  query = none;
  fragment = none;
}

abbrev client : RemoteWorkerProvider
client = record { endpoint = home; authorization = codes "Bearer 0123456789abcdef" }

client_made :
    new_with_timeouts
      (λ t. some home)
      (λ t. true)
      true
      (codes "http://127.0.0.1:8000/")
      (codes "0123456789abcdef")
      true
      5000
      600000
    ≡ ok client
unfolding new_with_timeouts byte_len text_eq ends_with
client_made = refl

new_with_timeouts-IsSecure_example :
    IsSecure true home
    × (codes "Bearer 0123456789abcdef" ≡ codes "Bearer " ++ codes "0123456789abcdef")
    × (16 ≤ byte_len (codes "0123456789abcdef"))
    × (byte_len (codes "0123456789abcdef") ≤ 512)
new_with_timeouts-IsSecure_example =
    new_with_timeouts-IsSecure (λ t. some home) (λ t. true) true (codes "http://127.0.0.1:8000/")
      (codes "0123456789abcdef") true 5000 600000 client client_made

-- The same address without the permission of development.
plain_http_is_refused :
    new_with_timeouts
      (λ t. some home)
      (λ t. true)
      true
      (codes "http://127.0.0.1:8000/")
      (codes "0123456789abcdef")
      false
      5000
      600000
    ≡ err insecure_endpoint
unfolding new_with_timeouts byte_len text_eq ends_with
plain_http_is_refused = refl

abbrev tiny : ModelInfo
tiny = record { id = codes "tiny"; display_name = codes "Tiny"; installed = true; ready = true }

abbrev answer : Response (List ModelInfo)
answer = record { status = 200; body = some (1, tiny ∷ []); error = none }

tiny_is_ready : ensure_model_ready (codes "tiny") (some answer) ≡ ok tt
unfolding ensure_model_ready parse_model_id text_eq byte_len trim
tiny_is_ready = refl

ensure_model_ready_sound_example :
    (response : Response (List ModelInfo)) × (listed : List ModelInfo) × (models : List ModelInfo)
    × (candidate : ModelInfo) × (◌≡◌ {A = Option (Response (List ModelInfo))}
        (some answer)
        (some response))
    × IsAnswer response listed
    × (read_models listed ≡ ok models)
    × Memᴰ candidate models
    × (candidate.id ≡ codes "tiny")
    × (candidate.installed ≡ true)
    × (candidate.ready ≡ true)
ensure_model_ready_sound_example =
    ensure_model_ready_sound (codes "tiny") (some answer) tiny_is_ready

-- The worker's first line, and its build.
bound :
    read_bound_address
      (λ t. some (record { ip = ipv4 0x7F000001; port = 8000 }))
      (some (codes "FREE_WHISPER_BOUND 127.0.0.1:8000"))
    ≡ ok (record { ip = ipv4 0x7F000001; port = 8000 })
unfolding read_bound_address starts_with trim
bound = refl

build_is_current :
    parse_worker_build_info
      (λ t. some 1)
      (codes "free-whisper-worker|0.1.0|1|whispercpp-v1.8.6-verbose-json-start-end")
      (codes "0.1.0")
    ≡ ok tt
unfolding parse_worker_build_info trim text_eq
build_is_current = refl
