-- ===== src/Lexicon/Entry.antt =====
-- crates/lexicon/src/lib.rs: profiles, entries and variants, and their validation. The crates
-- caseless, unicode-normalization and unicode-segmentation are the parameter `Unicode`; a fresh
-- UUID is an argument, and so is the time.
pub mod Normal
mod Tests
use Prim.Native.String.{String}
use free_whisper.Prelude.{
  ℕ, ◌+◌, Bool, true, false, not, ◌&&◌, ◌||◌, List, [], ◌∷◌, ◌++◌, Option, none, some, ltb, leb,
  ◌==◌, if◌then◌else◌, length, all, is_empty, Result, ok, err, ◌>>=◌, ◌>>◌, refuse_if, Text,
  byte_len,
}
use free_whisper.Prelude.Str.{is_whitespace, to_ascii_lowercase}

pub record Unicode : Type 0 where
  pub default_case_fold_str : Text → Text
  pub nfc : Text → Text
  pub split_word_bound_offsets : Text → List ℕ

abbrev pub max_term_chars : ℕ
max_term_chars = 256

abbrev pub max_category_chars : ℕ
max_category_chars = 64

pub data LexiconScope : Type 0 where
  global : LexiconScope
  profile : (profile_id : ℕ) → LexiconScope

same_id : ℕ → Option ℕ → Bool
same_id profile_id none = false
same_id profile_id (some active) = profile_id == active

unfoldable pub applies_to : LexiconScope → Option ℕ → Bool
unfolding same_id
applies_to global active_profile = true
applies_to (profile profile_id) active_profile = same_id profile_id active_profile

pub record LexiconProfile : Type 0 where
  pub id : ℕ
  pub name : Text
  pub normalized_name : Text
  pub enabled : Bool
  pub created_at : ℕ
  pub updated_at : ℕ

pub record LexiconEntry : Type 0 where
  pub id : ℕ
  pub canonical_text : Text
  pub canonical_key : Text
  pub language : Option Text
  pub category : Option Text
  pub priority : ℕ
  pub enabled : Bool
  pub scope : LexiconScope
  pub created_at : ℕ
  pub updated_at : ℕ

pub data MatchMode : Type 0 where
  exact_casefold exact_case_sensitive : MatchMode

pub record LexiconVariant : Type 0 where
  pub id : ℕ
  pub entry_id : ℕ
  pub variant_text : Text
  pub variant_key : Text
  pub match_mode : MatchMode
  pub created_at : ℕ

pub record LexiconVariantDraft : Type 0 where
  pub variant_text : Text
  pub match_mode : MatchMode

pub record LexiconEntryDraft : Type 0 where
  pub canonical_text : Text
  pub language : Option Text
  pub category : Option Text
  pub priority : ℕ
  pub enabled : Bool
  pub scope : LexiconScope
  pub variants : List LexiconVariantDraft

pub record ValidatedEntryDraft : Type 0 where
  pub entry : LexiconEntry
  pub variants : List LexiconVariant

pub data LexiconValidationError : Type 0 where
  empty : (field : String) → LexiconValidationError
  too_long : (field : String) (max : ℕ) → LexiconValidationError
  invalid_language : LexiconValidationError
  invalid_priority : ℕ → LexiconValidationError
  duplicate_variant : Text → LexiconValidationError

-- `str::split_whitespace`, with the word that is being read.
flush : Text → List Text → List Text
flush [] words = words
flush (c ∷ word) words = (c ∷ word) ∷ words

unfoldable pub split_words : Text → Text → List Text
unfolding flush is_whitespace
split_words word [] = flush word []
split_words word (c ∷ t) =
    let rest = split_words (if is_whitespace c then [] else word ++ c ∷ []) t in
    if is_whitespace c then flush word rest else rest

-- `join(" ")`.
unfoldable pub join : List Text → Text
join [] = []
join (word ∷ []) = word
join (word ∷ next ∷ words) = word ++ (b' ' ∷ join (next ∷ words))

-- `Option::map` followed by `transpose`.
transpose_map :
    Option Text
    → (Text → Result LexiconValidationError Text)
    → Result LexiconValidationError (Option Text)
transpose_map none f = ok none
transpose_map (some value) f = f value >>= λ normalized. ok (some normalized)

is_language_char : ℕ → Bool
is_language_char c = (leb b'a' c && leb c b'z') || (leb b'A' c && leb c b'Z') || c == b'-'

module _ (u : Unicode) where
  open u use {default_case_fold_str, nfc}

  unfoldable pub normalize_display_text : Text → String → Result LexiconValidationError Text
  unfolding split_words join
  normalize_display_text value field =
      let normalized = join (split_words [] (nfc value)) in
      if is_empty normalized then err (empty field) else ok normalized

  unfoldable pub normalize_term : Text → String → Result LexiconValidationError Text
  normalize_term value field = do
    normalized ← normalize_display_text value field
    refuse_if (ltb max_term_chars (length normalized)) (too_long field max_term_chars)
    ok normalized

  unfoldable pub normalize_optional :
      Option Text → String → ℕ → Result LexiconValidationError (Option Text)
  unfolding transpose_map
  normalize_optional value field max = transpose_map value λ value. do
    normalized ← normalize_display_text value field
    refuse_if (ltb max (length normalized)) (too_long field max)
    ok normalized

  unfoldable pub normalize_language : Option Text → Result LexiconValidationError (Option Text)
  unfolding transpose_map is_language_char to_ascii_lowercase
  normalize_language value = transpose_map value λ value. do
    displayed ← normalize_display_text value "language"
    let normalized = to_ascii_lowercase displayed
    refuse_if (ltb 35 (byte_len normalized) || not (all is_language_char normalized))
        invalid_language
    ok normalized

  unfoldable pub casefold_key : Text → Text
  casefold_key value = nfc (default_case_fold_str value)

  unfoldable pub new_profile :
      (id : ℕ) → Text → (now : ℕ) → Result LexiconValidationError LexiconProfile
  new_profile id name now = do
    normalized ← normalize_display_text name "profile name"
    ok (record {
      id = id;
      name = normalized;
      normalized_name = casefold_key normalized;
      enabled = true;
      created_at = now;
      updated_at = now;
    })

  unfoldable pub new_entry :
      (id : ℕ) (canonical_text : Text) (language category : Option Text) (priority : ℕ)
      → LexiconScope
      → (now : ℕ) → Result LexiconValidationError LexiconEntry
  new_entry id canonical_text language category priority scope now = do
    refuse_if (ltb 100 priority) (invalid_priority priority)
    text ← normalize_term canonical_text "canonical text"
    language' ← normalize_language language
    category' ← normalize_optional category "category" max_category_chars
    ok (record {
      id = id;
      canonical_text = text;
      canonical_key = casefold_key text;
      language = language';
      category = category';
      priority = priority;
      enabled = true;
      scope = scope;
      created_at = now;
      updated_at = now;
    })

  variant_key_of : MatchMode → Text → Text
  variant_key_of exact_casefold text = casefold_key text
  variant_key_of exact_case_sensitive text = text

  unfoldable pub new_variant :
      (id entry_id : ℕ)
      → Text
      → MatchMode
      → (now : ℕ) → Result LexiconValidationError LexiconVariant
  unfolding variant_key_of
  new_variant id entry_id variant_text match_mode now = do
    text ← normalize_term variant_text "variant text"
    ok (record {
      id = id;
      entry_id = entry_id;
      variant_text = text;
      variant_key = variant_key_of match_mode text;
      match_mode = match_mode;
      created_at = now;
    })

  -- The variants of a draft, with the ids that are drawn for them.
  unfoldable pub new_variants :
      (ids : ℕ → ℕ) (entry_id : ℕ)
      → List LexiconVariantDraft
      → (now : ℕ) → Result LexiconValidationError (List LexiconVariant)
  new_variants ids entry_id [] now = ok []
  new_variants ids entry_id (draft ∷ drafts) now = do
    value ← new_variant (ids 0) entry_id draft.variant_text draft.match_mode now
    rest ← new_variants (λ n. ids (n + 1)) entry_id drafts now
    ok (value ∷ rest)

  unfoldable pub validate_draft :
      (id : ℕ) (ids : ℕ → ℕ)
      → LexiconEntryDraft
      → (now : ℕ) → Result LexiconValidationError ValidatedEntryDraft
  validate_draft id ids draft now = do
    entry ←
        new_entry id draft.canonical_text draft.language draft.category draft.priority draft.scope
          now
    variants ← new_variants ids entry.id draft.variants now
    ok (record { entry = record entry { enabled = draft.enabled }; variants = variants })
