-- ===== src/Worker/Service/Tests.antt =====
-- One transcription, a second one that is refused, and a cancellation of the first.
use free_whisper.Prelude.{
  ℕ, ◌≡◌, refl, inl, inr, List, [], ◌∷◌, Option, some, ok, err, Text, codes, false, text_eq,
}
use free_whisper.Worker.Failure.{failure, not_found}
use free_whisper.Worker.Options.{
  LanguageRequest, TranscriptionOptions, validate_options, exceeds_bounds, sum,
}
use free_whisper.Worker.Limiter.{check_rate_limit}
use free_whisper.Worker.Service.{
  TranscribeCall, CancelCall, Running, Move, transcribes, cancels, found, failed, unanswered,
  was_cancelled, another_is_active, not_ready, acquire_request, run, start, running, seeking,
  unregistering,
}
use free_whisper.Worker.Service.Ending.{to_end}
use free_whisper.Worker.Service.Cancellation.{
  after, looked, meanwhile, fired, transcription_is_alone, cancel_reaches_transcription,
}

abbrev options : TranscriptionOptions
options = record {
  request_id = 7;
  language = LanguageRequest.auto;
  prompt_terms = [];
  temperature_milli = 0;
  beam_size = 5;
  word_timestamps = false;
}

abbrev header : Option Text
header = some (codes "Bearer key")

abbrev calls : ℕ → TranscribeCall ℕ
calls n = record {
  header = header;
  now = 1000;
  input = ok options;
  answer = err (not_ready "model");
}

abbrev cancel_calls : ℕ → CancelCall
cancel_calls n = record { header = header; id = 7; answer = ok tt }

-- The first transcription comes as far as the engine, and the cancellation to the map.
abbrev before : List Move
before =
    transcribes 0 ∷ transcribes 0 ∷ transcribes 0 ∷ cancels 0 ∷ transcribes 0 ∷ transcribes 0 ∷ []

-- The engine answers and the permit is dropped, which a second transcription takes.
abbrev between : List Move
between = transcribes 0 ∷ transcribes 0 ∷ transcribes 1 ∷ transcribes 1 ∷ transcribes 1 ∷ []

abbrev first : Running
first = record { request_id = 7; token = 0 }

first_runs : (after calls cancel_calls (codes "key") before).transcriptions 0 ≡ running first
unfolding run start text_eq validate_options exceeds_bounds sum check_rate_limit
first_runs = refl

transcription_is_alone_example :
    (◌≡◌ {A = ℕ} 0 0)
    × (acquire_request (after calls cancel_calls (codes "key") before).state
        ≡ ((after calls cancel_calls (codes "key") before).state, err another_is_active))
transcription_is_alone_example =
    transcription_is_alone calls cancel_calls (codes "key") before 0 0 (rw first_runs refl)
      (rw first_runs refl)

cancel_seeks : (after calls cancel_calls (codes "key") before).cancellations 0 ≡ seeking
unfolding run start text_eq validate_options exceeds_bounds sum check_rate_limit
cancel_seeks = refl

first_lost_permit :
    (meanwhile calls cancel_calls (codes "key") before between 0).transcriptions 0
    ≡ unregistering first
unfolding run start text_eq validate_options exceeds_bounds sum check_rate_limit
first_lost_permit = refl

cancel_reaches_transcription_example :
    ((looked calls cancel_calls (codes "key") before 0).cancellations 0 ≡ found 0)
    × ((run calls cancel_calls
            (run calls cancel_calls
              (fired calls cancel_calls (codes "key") before between 0)
              between)
            (to_end 0)).transcriptions
          0
        ≡ failed (was_cancelled 7))
cancel_reaches_transcription_example =
    cancel_reaches_transcription calls cancel_calls (codes "key") before between between 0 0 first
      (rw first_runs refl) (rw first_runs refl) cancel_seeks refl
      (inr (inr (inl first_lost_permit)))

-- While the body is read, there is nothing to cancel.
too_early :
    (after calls cancel_calls
        (codes "key")
        (transcribes 0 ∷ transcribes 0 ∷ transcribes 0 ∷ cancels 0 ∷ cancels 0 ∷ [])).cancellations
      0
    ≡ unanswered
        (failure 404 not_found "no active transcription has this request id" false (some 7))
unfolding run start text_eq check_rate_limit
too_early = refl
