-- ===== src/Lexicon/Prompt/Tests.antt =====
-- A lexicon with one entry in scope, one disabled and one of another profile.
use free_whisper.Prelude.{
  ◌≡◌, refl, ◌≤◌, List, [], ◌∷◌, none, some, true, false, All, length, codes,
}
use free_whisper.Lexicon.Entry.{LexiconEntry, global, profile, applies_to}
use free_whisper.Lexicon.Prompt.{
  select_prompt_terms, is_candidate, saturating_add, estimate_tokens, entry_le,
}
use free_whisper.Lexicon.Prompt.Budget.{
  total_tokens, IsServed, IsEligible, select_prompt_terms_bounds, select_prompt_terms_maximal,
}

abbrev entry : LexiconEntry
entry = record {
  id = 1;
  canonical_text = codes "OpenAI";
  canonical_key = codes "openai";
  language = none;
  category = none;
  priority = 80;
  enabled = true;
  scope = global;
  created_at = 0;
  updated_at = 0;
}

abbrev lexicon : List LexiconEntry
lexicon =
    record entry { id = 2; enabled = false }
    ∷ record entry { id = 3; scope = profile 9 }
    ∷ entry
    ∷ record entry { id = 4; scope = profile 5; priority = 90; canonical_text = codes "Codex" }
    ∷ []

selected :
    select_prompt_terms lexicon (some 5)
    ≡ record { terms = codes "Codex" ∷ codes "OpenAI" ∷ []; estimated_tokens = 6 }
unfolding select_prompt_terms applies_to entry_le saturating_add estimate_tokens
selected = refl

select_prompt_terms_bounds_example :
    let s = select_prompt_terms lexicon (some 5) in
    (length s.terms ≤ 32)
    × (s.estimated_tokens ≤ 128)
    × (s.estimated_tokens ≡ total_tokens s.terms)
    × All (IsEligible lexicon (some 5)) s.terms
select_prompt_terms_bounds_example = select_prompt_terms_bounds lexicon (some 5)

select_prompt_terms_maximal_example :
    All
      (λ e. is_candidate (some 5) e ≡ true → IsServed (select_prompt_terms lexicon (some 5)) e)
      lexicon
select_prompt_terms_maximal_example = select_prompt_terms_maximal lexicon (some 5)
