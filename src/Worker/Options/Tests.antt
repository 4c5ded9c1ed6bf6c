-- ===== src/Worker/Options/Tests.antt =====
-- Options with the terms of a lexicon of one entry.
use free_whisper.Prelude.{◌≡◌, refl, List, [], ◌∷◌, none, some, false, true, ok, codes, arith}
use free_whisper.Prelude.Str.{trim}
use free_whisper.Lexicon.Entry.{LexiconEntry, global}
use free_whisper.Lexicon.Prompt.{select_prompt_terms}
use free_whisper.Worker.Options.{LanguageRequest, validate_options}
use free_whisper.Worker.Options.Terms.{selected_terms_are_accepted}

abbrev lexicon : List LexiconEntry
lexicon =
    record {
      id = 1;
      canonical_text = codes "OpenAI";
      canonical_key = codes "openai";
      language = none;
      category = none;
      priority = 80;
      enabled = true;
      scope = global;
      created_at = 0;
      updated_at = 0;
    }
    ∷ []

selected_terms_are_accepted_example :
    validate_options (record {
      request_id = 7;
      language = LanguageRequest.auto;
      prompt_terms = (select_prompt_terms lexicon (some 5)).terms;
      temperature_milli = 0;
      beam_size = 5;
      word_timestamps = false;
    })
    ≡ ok tt
unfolding trim
selected_terms_are_accepted_example =
    selected_terms_are_accepted lexicon (some 5) 7 5 0 LanguageRequest.auto false (refl, tt)
      (omega arith) (omega arith) (omega arith)
