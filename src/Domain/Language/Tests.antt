-- ===== src/Domain/Language/Tests.antt =====
-- `German` with blanks around it.
use free_whisper.Prelude.{◌≡◌, refl, ◌⊎◌, Memᴰ, some, ok, codes}
use free_whisper.Prelude.Str.{trim, to_ascii_lowercase, eq_ignore_ascii_case}
use free_whisper.Domain.Catalogue.{WhisperLanguage, whisper_languages}
use free_whisper.Domain.Language.{explicit, normalize_language_selection}
use free_whisper.Domain.Language.Normal.{normalize_is_normal}

german : normalize_language_selection (some (codes " German ")) ≡ ok (explicit (codes "de"))
unfolding normalize_language_selection to_ascii_lowercase eq_ignore_ascii_case trim
    whisper_languages
german = refl

normalize_is_normal_example :
    (l : WhisperLanguage) × Memᴰ l whisper_languages
    × (l.code ≡ codes "de")
    × ((to_ascii_lowercase (trim (codes " German ")) ≡ l.code)
        ⊎ (to_ascii_lowercase (trim (codes " German ")) ≡ l.engine_name))
    × (normalize_language_selection (some (codes "de")) ≡ ok (explicit (codes "de")))
normalize_is_normal_example = normalize_is_normal (codes " German ") (codes "de") german
