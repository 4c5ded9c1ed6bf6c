-- ===== src/Providers/Client.antt =====
-- crates/providers/src/lib.rs: what `RemoteWorkerProvider` sends and how it reads the answers. What
-- `reqwest` gave is the argument of the reading: none is a request that failed on the network.
pub mod Accepted
pub mod Answers
use free_whisper.Prelude.{
  ℕ, ◌*◌, ◌^◌, Bool, true, false, not, ◌&&◌, ◌||◌, List, [], ◌∷◌, ◌++◌, Option, none, some, find?,
  leb, ltb, ◌==◌, if◌then◌else◌, Result, ok, err, ok_or, map_err, ◌>>=◌, ◌>>◌, refuse_if, Text,
  codes, text_eq,
}
use free_whisper.Domain.Language.{LanguageSelection, parse_model_id}
use free_whisper.Domain.Payload.{PcmF32Mono, is_finite}
use free_whisper.Worker.Failure.{ApiErrorCode}
use free_whisper.Worker.Audio.Writer.{le_bytes}
use free_whisper.Worker.Options.{LanguageRequest, TranscriptionOptions}
use free_whisper.Worker.Multipart.{Field, Item, field}
use free_whisper.Providers.Error.{
  ProviderError, unavailable, unauthorized, protocol, worker_unavailable, worker_protocol,
  model_not_ready, cancelled, rejected,
}

pub record DecodingOptions : Type 0 where
  pub temperature : ℕ
  pub beam_size : ℕ
  pub word_timestamps : Bool

pub record TranscriptionRequest : Type 0 where
  pub id : ℕ
  pub audio : PcmF32Mono
  pub language : LanguageSelection
  pub decoding : DecodingOptions
  pub prompt_terms : List Text

unfoldable pub language_to_wire : LanguageSelection → LanguageRequest
language_to_wire LanguageSelection.auto = LanguageRequest.auto
language_to_wire (LanguageSelection.explicit language) = LanguageRequest.explicit language

-- `(0.0..=1.0).contains` on the bit pattern of a finite `f32`: from 0.0 to 1.0 the patterns are in
-- order, and -0.0 is equal to 0.0.
unfoldable pub is_within_unit : ℕ → Bool
is_within_unit temperature = leb temperature 0x3F800000 || temperature == 0x80000000

-- `to_milli` is `(temperature * 1_000.0).round() as u16`.
unfoldable pub options_from_request :
    (to_milli : ℕ → ℕ) → TranscriptionRequest → Result ProviderError TranscriptionOptions
unfolding language_to_wire is_within_unit is_finite
options_from_request to_milli request = do
  refuse_if (not (request.audio.sample_rate_hz == 16000)) protocol
  refuse_if
      (not (is_finite request.decoding.temperature)
        || not (is_within_unit request.decoding.temperature))
      protocol
  ok (record {
    request_id = request.id;
    language = language_to_wire request.language;
    prompt_terms = request.prompt_terms;
    temperature_milli = to_milli request.decoding.temperature;
    beam_size = request.decoding.beam_size;
    word_timestamps = request.decoding.word_timestamps;
  })

-- The bytes of the samples.
unfoldable pub encode_samples : List ℕ → List ℕ
unfolding le_bytes
encode_samples [] = []
encode_samples (sample ∷ samples) = le_bytes 4 sample ++ encode_samples samples

abbrev pub text_field : Text → Text → Item
text_field name text = field (record { name = name; text = some text; bytes = some [] })

-- The multipart form of `transcribe`. `to_string` is `serde_json::to_string`, and `from_utf8` reads
-- the bytes of the audio as a text, where they are one.
unfoldable pub request_form :
    (to_milli : ℕ → ℕ) (to_string : TranscriptionOptions → Option Text)
    → (from_utf8 : List ℕ → Option Text) → TranscriptionRequest
    → Result ProviderError (List Item)
unfolding options_from_request encode_samples
request_form to_milli to_string from_utf8 request = do
  options ← options_from_request to_milli request
  json ← ok_or (to_string options) protocol
  ok (
      text_field (codes "options") json
      ∷ text_field (codes "audio_encoding") (codes "pcm_f32le_mono_16khz")
      ∷ field (record {
        name = codes "audio";
        text = from_utf8 (encode_samples request.audio.samples);
        bytes = some (encode_samples request.audio.samples);
      })
      ∷ [])

pub record ApiError : Type 0 where
  pub api_version : ℕ
  pub code : ApiErrorCode
  pub message : Text
  pub request_id : Option ℕ

unfoldable pub validate_api_version : (api_version : ℕ) → Result ProviderError (Unit {0})
validate_api_version api_version = refuse_if (not (api_version == 1)) protocol

unfoldable pub map_api_error : (status : ℕ) → ApiError → ProviderError
map_api_error status error = elim error.code [
  | ApiErrorCode.unauthorized ↦ unauthorized
  | ApiErrorCode.model_not_ready ↦ model_not_ready error.message
  | ApiErrorCode.cancelled ↦ elim error.request_id [
    | none ↦ protocol
    | some request_id ↦ cancelled request_id
  ]
  | ApiErrorCode.engine_unavailable ↦ worker_unavailable error.message
  | ApiErrorCode.busy ↦ worker_unavailable error.message
  | ApiErrorCode.rate_limited ↦ worker_unavailable error.message
  | ApiErrorCode.engine_protocol ↦ worker_protocol error.message
  | ApiErrorCode.invalid_request ↦ rejected status error.message
  | ApiErrorCode.request_too_large ↦ rejected status error.message
  | ApiErrorCode.audio_too_long ↦ rejected status error.message
  | ApiErrorCode.not_found ↦ rejected status error.message
  | ApiErrorCode.internal ↦ rejected status error.message
]

-- An answer: its status, its body as the type that was asked for, with its version, and its body as
-- an error.
pub record Response (A : Type 0) : Type 0 where
  pub status : ℕ
  pub body : Option (ℕ × A)
  pub error : Option ApiError

unfoldable pub parse_error : (status : ℕ) → Option ApiError → ProviderError
unfolding validate_api_version map_api_error
parse_error status none = protocol
parse_error status (some error) = elim (validate_api_version error.api_version) [
  | ok u ↦ map_api_error status error
  | err e ↦ e
]

unfoldable pub parse_response : {A : Type 0} → Option (Response A) → Result ProviderError A
unfolding parse_error validate_api_version
parse_response none = err unavailable
parse_response (some response) =
    if leb 200 response.status && ltb response.status 300
    then (ok_or response.body protocol >>= λ parsed. validate_api_version parsed.0 >> ok parsed.1)
    else err (parse_error response.status response.error)

pub record ModelInfo : Type 0 where
  pub id : Text
  pub display_name : Text
  pub installed : Bool
  pub ready : Bool

-- `collect` over the models, each with its id parsed.
unfoldable pub read_models : List ModelInfo → Result ProviderError (List ModelInfo)
read_models [] = ok []
read_models (model ∷ models) = do
  id ← map_err (λ e. protocol) (parse_model_id model.id)
  rest ← read_models models
  ok (record model { id = id } ∷ rest)

unfoldable pub list_models :
    Option (Response (List ModelInfo)) → Result ProviderError (List ModelInfo)
unfolding parse_response read_models
list_models answer = parse_response answer >>= read_models

unfoldable pub check_ready : (model : Text) → Option ModelInfo → Result ProviderError (Unit {0})
check_ready model none = err (model_not_ready (model ++ codes " is unknown to the worker"))
check_ready model (some candidate) =
    refuse_if (not (candidate.installed && candidate.ready)) (model_not_ready model)

unfoldable pub ensure_model_ready :
    (model : Text) → Option (Response (List ModelInfo)) → Result ProviderError (Unit {0})
unfolding list_models check_ready text_eq
ensure_model_ready model answer = list_models answer >>= λ models.
    check_ready model (find? (λ candidate. text_eq candidate.id model) models)

pub record CancelResponse : Type 0 where
  pub request_id : ℕ
  pub cancelled : Bool

unfoldable pub cancel :
    (request_id : ℕ) → Option (Response CancelResponse) → Result ProviderError (Unit {0})
unfolding parse_response
cancel request_id answer = parse_response answer >>= λ response.
    refuse_if (not response.cancelled || not (response.request_id == request_id)) protocol
