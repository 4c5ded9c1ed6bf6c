-- ===== src/Domain/Catalogue.antt =====
-- crates/domain/src/lib.rs, `WHISPER_LANGUAGES`: the pinned catalogue, in the source's order.
use Prim.Native.String.{String}
use free_whisper.Prelude.{List, [], ◌∷◌, Text, codes}

pub record WhisperLanguage : Type 0 where
  pub code : Text
  pub display_name : Text
  pub engine_name : Text

language : String → String → String → WhisperLanguage
language code display_name engine_name = record {
  code = codes code;
  display_name = codes display_name;
  engine_name = codes engine_name;
}

unfoldable pub whisper_languages : List WhisperLanguage
unfolding language
whisper_languages =
    language "en" "English" "english"
    ∷ language "zh" "Chinese" "chinese"
    ∷ language "de" "Deutsch" "german"
    ∷ language "es" "Spanish" "spanish"
    ∷ language "ru" "Russian" "russian"
    ∷ language "ko" "Korean" "korean"
    ∷ language "fr" "French" "french"
    ∷ language "ja" "Japanese" "japanese"
    ∷ language "pt" "Portuguese" "portuguese"
    ∷ language "tr" "Turkish" "turkish"
    ∷ language "pl" "Polish" "polish"
    ∷ language "ca" "Catalan" "catalan"
    ∷ language "nl" "Dutch" "dutch"
    ∷ language "ar" "Arabic" "arabic"
    ∷ language "sv" "Swedish" "swedish"
    ∷ language "it" "Italian" "italian"
    ∷ language "id" "Indonesian" "indonesian"
    ∷ language "hi" "Hindi" "hindi"
    ∷ language "fi" "Finnish" "finnish"
    ∷ language "vi" "Vietnamese" "vietnamese"
    ∷ language "he" "Hebrew" "hebrew"
    ∷ language "uk" "Ukrainian" "ukrainian"
    ∷ language "el" "Greek" "greek"
    ∷ language "ms" "Malay" "malay"
    ∷ language "cs" "Czech" "czech"
    ∷ language "ro" "Romanian" "romanian"
    ∷ language "da" "Danish" "danish"
    ∷ language "hu" "Hungarian" "hungarian"
    ∷ language "ta" "Tamil" "tamil"
    ∷ language "no" "Norwegian" "norwegian"
    ∷ language "th" "Thai" "thai"
    ∷ language "ur" "Urdu" "urdu"
    ∷ language "hr" "Croatian" "croatian"
    ∷ language "bg" "Bulgarian" "bulgarian"
    ∷ language "lt" "Lithuanian" "lithuanian"
    ∷ language "la" "Latin" "latin"
    ∷ language "mi" "Maori" "maori"
    ∷ language "ml" "Malayalam" "malayalam"
    ∷ language "cy" "Welsh" "welsh"
    ∷ language "sk" "Slovak" "slovak"
    ∷ language "te" "Telugu" "telugu"
    ∷ language "fa" "Persian" "persian"
    ∷ language "lv" "Latvian" "latvian"
    ∷ language "bn" "Bengali" "bengali"
    ∷ language "sr" "Serbian" "serbian"
    ∷ language "az" "Azerbaijani" "azerbaijani"
    ∷ language "sl" "Slovenian" "slovenian"
    ∷ language "kn" "Kannada" "kannada"
    ∷ language "et" "Estonian" "estonian"
    ∷ language "mk" "Macedonian" "macedonian"
    ∷ language "br" "Breton" "breton"
    ∷ language "eu" "Basque" "basque"
    ∷ language "is" "Icelandic" "icelandic"
    ∷ language "hy" "Armenian" "armenian"
    ∷ language "ne" "Nepali" "nepali"
    ∷ language "mn" "Mongolian" "mongolian"
    ∷ language "bs" "Bosnian" "bosnian"
    ∷ language "kk" "Kazakh" "kazakh"
    ∷ language "sq" "Albanian" "albanian"
    ∷ language "sw" "Swahili" "swahili"
    ∷ language "gl" "Galician" "galician"
    ∷ language "mr" "Marathi" "marathi"
    ∷ language "pa" "Punjabi" "punjabi"
    ∷ language "si" "Sinhala" "sinhala"
    ∷ language "km" "Khmer" "khmer"
    ∷ language "sn" "Shona" "shona"
    ∷ language "yo" "Yoruba" "yoruba"
    ∷ language "so" "Somali" "somali"
    ∷ language "af" "Afrikaans" "afrikaans"
    ∷ language "oc" "Occitan" "occitan"
    ∷ language "ka" "Georgian" "georgian"
    ∷ language "be" "Belarusian" "belarusian"
    ∷ language "tg" "Tajik" "tajik"
    ∷ language "sd" "Sindhi" "sindhi"
    ∷ language "gu" "Gujarati" "gujarati"
    ∷ language "am" "Amharic" "amharic"
    ∷ language "yi" "Yiddish" "yiddish"
    ∷ language "lo" "Lao" "lao"
    ∷ language "uz" "Uzbek" "uzbek"
    ∷ language "fo" "Faroese" "faroese"
    ∷ language "ht" "Haitian Creole" "haitian creole"
    ∷ language "ps" "Pashto" "pashto"
    ∷ language "tk" "Turkmen" "turkmen"
    ∷ language "nn" "Nynorsk" "nynorsk"
    ∷ language "mt" "Maltese" "maltese"
    ∷ language "sa" "Sanskrit" "sanskrit"
    ∷ language "lb" "Luxembourgish" "luxembourgish"
    ∷ language "my" "Myanmar" "myanmar"
    ∷ language "bo" "Tibetan" "tibetan"
    ∷ language "tl" "Tagalog" "tagalog"
    ∷ language "mg" "Malagasy" "malagasy"
    ∷ language "as" "Assamese" "assamese"
    ∷ language "tt" "Tatar" "tatar"
    ∷ language "haw" "Hawaiian" "hawaiian"
    ∷ language "ln" "Lingala" "lingala"
    ∷ language "ha" "Hausa" "hausa"
    ∷ language "ba" "Bashkir" "bashkir"
    ∷ language "jw" "Javanese" "javanese"
    ∷ language "su" "Sundanese" "sundanese"
    ∷ language "yue" "Cantonese" "cantonese"
    ∷ []
