-- ===== src/Lexicon/Prompt.antt =====
-- crates/lexicon/src/lib.rs: `select_prompt_terms`.
pub mod Budget
mod Tests
use free_whisper.Prelude.{
  ℕ, ◌+◌, ◌-◌, ◌/◌, ◌^◌, min, max, Bool, ◌&&◌, ◌||◌, List, [], ◌∷◌, ◌++◌, Option, ltb, leb, ◌==◌,
  if◌then◌else◌, length, filter, sort_by, Text, text_eq,
}
use free_whisper.Prelude.Str.{text_le}
use free_whisper.Lexicon.Entry.{LexiconEntry, applies_to}

abbrev pub max_prompt_terms : ℕ
max_prompt_terms = 32

abbrev pub max_prompt_tokens : ℕ
max_prompt_tokens = 128

pub record PromptSelection : Type 0 where
  pub terms : List Text
  pub estimated_tokens : ℕ

-- `usize::saturating_add` on 64 bits.
unfoldable pub saturating_add : ℕ → ℕ → ℕ
saturating_add a b = min (a + b) (2 ^ 64 - 1)

-- `chars().count().div_ceil(2).max(1)`.
unfoldable pub estimate_tokens : Text → ℕ
estimate_tokens term = max ((length term + 1) / 2) 1

-- The sort key `(Reverse(priority), canonical_key, id)` is not greater.
unfoldable pub entry_le : LexiconEntry → LexiconEntry → Bool
entry_le left right =
    if left.priority == right.priority
    then (if text_eq left.canonical_key right.canonical_key
        then leb left.id right.id
        else text_le left.canonical_key right.canonical_key)
    else ltb right.priority left.priority

abbrev pub is_candidate : Option ℕ → LexiconEntry → Bool
is_candidate active_profile entry = entry.enabled && applies_to entry.scope active_profile

-- The loop over the candidates: one that does not fit is passed over.
unfoldable pub pick :
    (terms : List Text) (estimated_tokens : ℕ) → List LexiconEntry → PromptSelection
pick terms estimated_tokens [] = record { terms = terms; estimated_tokens = estimated_tokens }
pick terms estimated_tokens (entry ∷ entries) =
    let term_tokens = estimate_tokens entry.canonical_text in
    let skip =
      length terms == max_prompt_terms
      || ltb max_prompt_tokens (saturating_add estimated_tokens term_tokens) in
    pick (if skip then terms else terms ++ entry.canonical_text ∷ [])
      (if skip then estimated_tokens else estimated_tokens + term_tokens) entries

unfoldable pub select_prompt_terms : List LexiconEntry → Option ℕ → PromptSelection
unfolding pick
select_prompt_terms entries active_profile =
    pick [] 0 (sort_by entry_le (filter (is_candidate active_profile) entries))
