-- ===== src/Lexicon/Correction/Tests.antt =====
-- Two corrections of one text, with a case fold and word boundaries for ASCII texts.
use free_whisper.Prelude.{
  ℕ, suc, ◌+◌, ◌≡◌, refl, List, [], ◌∷◌, arith, Bool, true, ◌==◌, if◌then◌else◌, none, ok, Text,
  codes, byte_len,
}
use free_whisper.Prelude.Str.{to_ascii_lowercase, match_indices, slice, split_at, slice_from}
use free_whisper.Domain.Transcript.{AppliedCorrection}
use free_whisper.Lexicon.Entry.{Unicode, LexiconEntry, LexiconVariant, global, exact_casefold}
use free_whisper.Lexicon.Correction.{
  CorrectionRule, CorrectionResult, apply_corrections, render_corrections, collect, build, select,
  word_boundary_offsets, find_candidates, find_all, fold_from, candidate_le, char_count_to_u32,
}
use free_whisper.Lexicon.Correction.Patch.{patch, IsCut}
use free_whisper.Lexicon.Correction.RoundTrip.{apply_patches, render-apply, render-kept}

-- A boundary before and after each space.
abbrev word_offsets : ℕ → Text → List ℕ
word_offsets n [] = []
word_offsets n (c ∷ t) =
    let rest = word_offsets (suc n) t in if c == b' ' then n ∷ suc n ∷ rest else rest

abbrev ascii : Unicode
ascii = record {
  default_case_fold_str = to_ascii_lowercase;
  nfc = λ t. t;
  split_word_bound_offsets = word_offsets 0;
}

abbrev codex : LexiconEntry
codex = record {
  id = 1;
  canonical_text = codes "Codex";
  canonical_key = codes "codex";
  language = none;
  category = none;
  priority = 80;
  enabled = true;
  scope = global;
  created_at = 0;
  updated_at = 0;
}

abbrev kodeks : LexiconVariant
kodeks = record {
  id = 2;
  entry_id = 1;
  variant_text = codes "kodeks";
  variant_key = codes "kodeks";
  match_mode = exact_casefold;
  created_at = 0;
}

abbrev rules : List CorrectionRule
rules = record { entry = codex; variant = kodeks } ∷ []

abbrev spoken : Text
spoken = codes "kodeks und KODEKS"

abbrev first : AppliedCorrection
first = record {
  id = 7;
  variant_id = 2;
  original = codes "kodeks";
  replacement = codes "Codex";
  start_char = 0;
  end_char = 6;
  applied_at = 9;
}

abbrev second : AppliedCorrection
second = record first { id = 8; original = codes "KODEKS"; start_char = 11; end_char = 17 }

abbrev corrected : CorrectionResult
corrected = record { final_text = codes "Codex und Codex"; corrections = first ∷ second ∷ [] }

spoken-corrected : apply_corrections ascii spoken rules (λ n. n + 7) 9 ≡ ok corrected
unfolding apply_corrections collect build select word_boundary_offsets byte_len find_candidates
    find_all match_indices fold_from to_ascii_lowercase candidate_le slice split_at
    char_count_to_u32 slice_from
spoken-corrected = refl

apply_patches_example :
    (r : CorrectionResult) × (apply_corrections ascii spoken rules (λ n. n + 7) 9 ≡ ok r)
    × IsCut 0 spoken r.corrections
    × (r.final_text ≡ patch 0 spoken r.corrections)
apply_patches_example =
    apply_patches ascii spoken rules (λ n. n + 7) 9 (omega arith) (refl, tt) ((λ e. cc), tt)

render-apply_example :
    render_corrections spoken (first ∷ second ∷ []) ≡ ok (codes "Codex und Codex")
render-apply_example =
    render-apply ascii spoken rules (λ n. n + 7) 9 corrected (omega arith) ((λ e. cc), tt)
      spoken-corrected

abbrev is_second : AppliedCorrection → Bool
is_second k = k.id == 8

-- With the first correction reverted.
render-kept_example : render_corrections spoken (second ∷ []) ≡ ok (codes "kodeks und Codex")
unfolding patch
render-kept_example =
    render-kept ascii spoken rules (λ n. n + 7) 9 corrected is_second (omega arith) ((λ e. cc), tt)
      spoken-corrected
