-- ===== src/Domain/Language/Normal.antt =====
-- The names that `normalize_language_selection` gives are its own normal forms.
use free_whisper.Prelude.{
  ◌≡◌, refl, ap, ◌⊎◌, Bool, true, false, ◌&&◌, some, arith, all, All, All-imp, All→Mem, all→All,
  find?_sound, find?_mem, subst, find?, Result, ok, err, Text, text_eq, text_eq_iff, Memᴰ,
}
use free_whisper.Prelude.Str.{trim, to_ascii_lowercase, eq_ignore_ascii_case}
use free_whisper.Domain.Catalogue.{WhisperLanguage, whisper_languages}
use free_whisper.Domain.Language.{
  LanguageSelection, LanguageSelectionError, auto, explicit, names, normalize_language_selection,
}

abbrev is_explicit : Result LanguageSelectionError LanguageSelection → Text → Bool
is_explicit (ok auto) code = false
is_explicit (ok (explicit c)) code = text_eq c code
is_explicit (err e) code = false

abbrev selects : Text → Text → Bool
selects value code = is_explicit (normalize_language_selection (some value)) code

-- Every language of the catalogue is found by its code and by its engine name.
catalogue_selects :
    all (λ l. selects l.code l.code && selects l.engine_name l.code) whisper_languages ≡ true
unfolding normalize_language_selection to_ascii_lowercase eq_ignore_ascii_case trim
    whisper_languages
catalogue_selects = refl

is_explicit_sound :
    (r : Result LanguageSelectionError LanguageSelection) (code : Text)
    → is_explicit r code ≡ true
    → r ≡ ok (explicit code)
is_explicit_sound (ok auto) code h = cc
is_explicit_sound (ok (explicit c)) code h = ap (λ t. ok (explicit t)) ((text_eq_iff c code).0 h)
is_explicit_sound (err e) code h = cc

-- Every language of the catalogue can be selected: its code and its engine name
-- both give its code.
pub catalogue_is_selectable :
    All
      (λ l.
        (normalize_language_selection (some l.code) ≡ ok (explicit l.code))
        × (normalize_language_selection (some l.engine_name) ≡ ok (explicit l.code)))
      whisper_languages
catalogue_is_selectable =
    All-imp _ _ whisper_languages
      (λ l h. (
        is_explicit_sound _ l.code (ground (arith, h)),
        is_explicit_sound _ l.code (ground (arith, h)),
      ))
      (all→All (λ l. selects l.code l.code && selects l.engine_name l.code) whisper_languages
        catalogue_selects)

-- Where a selection comes from.
selected_language :
    (value : Text) (code : Text)
    → normalize_language_selection (some value) ≡ ok (explicit code)
    → (l : WhisperLanguage) × (find? (names (to_ascii_lowercase (trim value))) whisper_languages
        ≡ some l)
      × (l.code ≡ code)
unfolding normalize_language_selection
selected_language value code h = ground arith

-- A selected language is one of the catalogue, the value's trimmed lower-case form is its code or
-- its engine name, and the selected code is a normal form: selecting it again gives it again.
pub normalize_is_normal :
    (value : Text) (code : Text)
    → normalize_language_selection (some value) ≡ ok (explicit code)
    → (l : WhisperLanguage) × Memᴰ l whisper_languages
      × (l.code ≡ code)
      × ((to_ascii_lowercase (trim value) ≡ l.code)
          ⊎ (to_ascii_lowercase (trim value) ≡ l.engine_name))
      × (normalize_language_selection (some code) ≡ ok (explicit code))
normalize_is_normal value code h =
    let (l, found, is) = selected_language value code h in
    let found_test =
      find?_sound (names (to_ascii_lowercase (trim value))) whisper_languages l found in
    let listed = find?_mem (names (to_ascii_lowercase (trim value))) whisper_languages l found in
    let again = (All→Mem _ whisper_languages l catalogue_is_selectable listed).0 in
    (
      l,
      listed,
      is,
      either l found_test,
      subst (λ c. normalize_language_selection (some c) ≡ ok (explicit c)) is again,
    )
  where
    either :
        (l : WhisperLanguage)
        → names (to_ascii_lowercase (trim value)) l ≡ true
        → (to_ascii_lowercase (trim value) ≡ l.code)
          ⊎ (to_ascii_lowercase (trim value) ≡ l.engine_name)
    either l t =
        unfold names in
        ground (
          arith,
          text_eq_iff (to_ascii_lowercase (trim value)) l.code,
          text_eq_iff (to_ascii_lowercase (trim value)) l.engine_name,
        )
