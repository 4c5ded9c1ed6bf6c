-- ===== src/Lexicon/Entry/Tests.antt =====
-- An entry typed with too many blanks, under a parameter that leaves texts as they are.
use free_whisper.Prelude.{◌≡◌, refl, ◌≤◌, [], none, true, false, is_empty, length, ok, codes}
use free_whisper.Prelude.Str.{trim}
use free_whisper.Lexicon.Entry.{
  Unicode, LexiconEntry, global, new_entry, normalize_language, normalize_optional, normalize_term,
  normalize_display_text, split_words, join, casefold_key,
}
use free_whisper.Lexicon.Entry.Normal.{new_entry_is_usable}

abbrev plain : Unicode
plain = record { default_case_fold_str = λ t. t; nfc = λ t. t; split_word_bound_offsets = λ t. [] }

abbrev typed : LexiconEntry
typed = record {
  id = 1;
  canonical_text = codes "Open AI";
  canonical_key = codes "Open AI";
  language = none;
  category = none;
  priority = 80;
  enabled = true;
  scope = global;
  created_at = 5;
  updated_at = 5;
}

blanks_are_dropped : new_entry plain 1 (codes "  Open   AI ") none none 80 global 5 ≡ ok typed
unfolding new_entry normalize_term normalize_display_text normalize_language normalize_optional
    split_words join casefold_key
blanks_are_dropped = refl

new_entry_is_usable_example :
    (is_empty (trim typed.canonical_text) ≡ false)
    × (length typed.canonical_text ≤ 256)
    × (typed.priority ≤ 100)
new_entry_is_usable_example =
    new_entry_is_usable plain 1 (codes "  Open   AI ") none none 80 global 5 typed
      blanks_are_dropped
