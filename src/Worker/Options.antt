-- ===== src/Worker/Options.antt =====
-- apps/worker/src/lib.rs, `validate_options`, on crates/protocol/src/lib.rs,
-- `TranscriptionOptionsV1`.
pub mod Terms
mod Tests
use free_whisper.Prelude.{
  ℕ, ◌+◌, ◌/◌, max, Bool, ◌||◌, List, [], ◌∷◌, ltb, ◌==◌, length, any, is_empty, map, Result, ok,
  ◌>>=◌, ◌>>◌, refuse_if, Text,
}
use free_whisper.Prelude.Str.{trim}
use free_whisper.Worker.Failure.{ApiFailure, invalid}

pub data LanguageRequest : Type 0 where
  auto : LanguageRequest
  explicit : (language : Text) → LanguageRequest

pub record TranscriptionOptions : Type 0 where
  pub request_id : ℕ
  pub language : LanguageRequest
  pub prompt_terms : List Text
  pub temperature_milli : ℕ
  pub beam_size : ℕ
  pub word_timestamps : Bool

-- `iter().sum()`.
unfoldable pub sum : List ℕ → ℕ
sum [] = 0
sum (n ∷ ns) = n + sum ns

abbrev pub is_blank : Text → Bool
is_blank term = is_empty (trim term)

unfoldable pub exceeds_bounds : TranscriptionOptions → Bool
unfolding sum
exceeds_bounds options =
    ltb 32 (length options.prompt_terms)
    || any is_blank options.prompt_terms
    || ltb 128 (sum (map (λ term. max ((length term + 1) / 2) 1) options.prompt_terms))
    || (options.beam_size == 0)
    || ltb 10 options.beam_size
    || ltb 1000 options.temperature_milli

unfoldable pub validate_options : TranscriptionOptions → Result ApiFailure (Unit {0})
unfolding exceeds_bounds
validate_options options = do
  refuse_if (exceeds_bounds options) (invalid "options exceed the v1 bounds")
  ok tt
