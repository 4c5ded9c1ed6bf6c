-- ===== src/Domain/Language.antt =====
-- crates/domain/src/lib.rs: the language selection against the pinned catalogue, and `ModelId`.
pub mod Normal
mod Tests
use Prim.Native.String.{String}
use free_whisper.Prelude.{
  ℕ, Bool, ◌||◌, List, Option, none, some, if◌then◌else◌, any, find?, is_empty, ltb, Result, ok,
  err, ok_or, ◌>>=◌, ◌>>◌, refuse_if, Text, codes, text_eq, byte_len,
}
use free_whisper.Prelude.Str.{trim, to_ascii_lowercase, eq_ignore_ascii_case, is_whitespace}
use free_whisper.Domain.Catalogue.{WhisperLanguage, whisper_languages}

pub data LanguageSelection : Type 0 where
  auto : LanguageSelection
  explicit : Text → LanguageSelection

pub data LanguageSelectionError : Type 0 where
  unsupported : Text → LanguageSelectionError

-- The test of `find` in the catalogue.
unfoldable pub names : Text → WhisperLanguage → Bool
names normalized language =
    text_eq normalized language.code || text_eq normalized language.engine_name

select_in_catalogue : Text → Result LanguageSelectionError LanguageSelection
unfolding names
select_in_catalogue value = elim (find? (names (to_ascii_lowercase value)) whisper_languages) [
  | none ↦ err (unsupported value)
  | some language ↦ ok (explicit language.code)
]

select_trimmed : Text → Result LanguageSelectionError LanguageSelection
unfolding select_in_catalogue
select_trimmed value =
    if is_empty value
    then ok auto
    else if eq_ignore_ascii_case value (codes "auto")
    then ok auto
    else select_in_catalogue value

unfoldable pub normalize_language_selection :
    Option Text → Result LanguageSelectionError LanguageSelection
unfolding select_trimmed
normalize_language_selection none = ok auto
normalize_language_selection (some value) = select_trimmed (trim value)

display_name_in_catalogue : Text → Text → Text
unfolding names
display_name_in_catalogue normalized value = elim (find? (names normalized) whisper_languages) [
  | none ↦ value
  | some language ↦ language.display_name
]

unfoldable pub language_display_name : Text → Text
unfolding display_name_in_catalogue
language_display_name value =
    let normalized = to_ascii_lowercase (trim value) in
    if text_eq normalized (codes "auto")
    then codes "Automatisch"
    else display_name_in_catalogue normalized value

pub data IdentifierError : Type 0 where
  empty : IdentifierError
  invalid : Text → IdentifierError

-- `ModelId::parse`: the id is the text itself.
unfoldable pub parse_model_id : Text → Result IdentifierError Text
parse_model_id value = do
  refuse_if (is_empty (trim value)) empty
  refuse_if (ltb 128 (byte_len value) || any is_whitespace value) (invalid value)
  ok value
