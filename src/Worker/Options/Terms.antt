-- ===== src/Worker/Options/Terms.antt =====
-- The worker accepts the prompt terms that the lexicon selects.
use free_whisper.Prelude.{
  ℕ, Bool, ◌≤◌, ◌≡◌, refl, sym, subst, false, List, [], ◌∷◌, map, Option, arith, All, All-imp,
  All→Mem, any, ltb, length, ok, Text, ◌+◌, ◌/◌, max, ◌==◌,
}
use free_whisper.Lexicon.Entry.{LexiconEntry}
use free_whisper.Lexicon.Prompt.{estimate_tokens, select_prompt_terms}
use free_whisper.Lexicon.Prompt.Budget.{total_tokens, IsEligible, select_prompt_terms_bounds}
use free_whisper.Worker.Options.{LanguageRequest, sum, is_blank, exceeds_bounds, validate_options}

-- The worker's count of tokens is the lexicon's.
same_count :
    (terms : List Text)
    → sum (map (λ term. max ((length term + 1) / 2) 1) terms) ≡ total_tokens terms
unfolding sum total_tokens estimate_tokens
same_count [] = refl
same_count (t ∷ ts) = omega (arith, same_count ts)

none_blank : (terms : List Text) → All (λ t. is_blank t ≡ false) terms → any is_blank terms ≡ false
none_blank [] h = refl
none_blank (t ∷ ts) h = rw (h.0, none_blank ts h.1) refl

-- Options whose prompt terms the lexicon selected pass the worker's validation, for every lexicon
-- without blank terms, every profile, every language, every beam from 1 to 10 and every temperature up to 1000.
pub selected_terms_are_accepted :
    (entries : List LexiconEntry) (active_profile : Option ℕ) (request_id beam temperature : ℕ)
    → (language : LanguageRequest) (word_timestamps : Bool)
    → All (λ e. is_blank e.canonical_text ≡ false) entries
    → 1 ≤ beam
    → beam ≤ 10
    → temperature ≤ 1000
    → validate_options (record {
      request_id = request_id;
      language = language;
      prompt_terms = (select_prompt_terms entries active_profile).terms;
      temperature_milli = temperature;
      beam_size = beam;
      word_timestamps = word_timestamps;
    })
      ≡ ok tt
unfolding validate_options exceeds_bounds
selected_terms_are_accepted entries active_profile request_id beam temperature language
      word_timestamps texts low high cool =
    let terms = (select_prompt_terms entries active_profile).terms in
    let (few, short, counted, origin) = select_prompt_terms_bounds entries active_profile in
    let visible = none_blank terms (
      All-imp (IsEligible entries active_profile) _ terms
        (λ t h.
          subst (λ u. is_blank u ≡ false) (sym h.3)
            (All→Mem (λ e. is_blank e.canonical_text ≡ false) entries h.0 texts h.1))
        origin) in
    let few' : ltb 32 (length terms) ≡ false = ground arith in
    let short' : ltb 128 (sum (map (λ term. max ((length term + 1) / 2) 1) terms)) ≡ false =
      rw (same_count terms) (ground (arith, short, counted)) in
    let low' : (beam == 0) ≡ false = ground arith in
    let high' : ltb 10 beam ≡ false = ground arith in
    let cool' : ltb 1000 temperature ≡ false = ground arith in
    rw (few', visible, short', low', high', cool') refl
