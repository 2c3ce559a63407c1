-- ===== src/Languages/Model.antt =====
-- A language of internal/languages/models.go, and the models that are downloaded for it.
use go_live_transcription.Prelude.{String, Bool, true, false, [], ◌∷◌}
use go_live_transcription.GoMap.{GoMap}

pub record LanguageMetadata : Type 0 where
  pub separator : String
  pub rtl : Bool

pub record LanguageModel : Type 0 where
  pub name : String
  pub metadata : LanguageMetadata

abbrev pub new_lang : String → LanguageModel
new_lang name = record { name = name; metadata = record { separator = " "; rtl = false } }

abbrev pub new_lang_rtl : String → LanguageModel
new_lang_rtl name = record { name = name; metadata = record { separator = " "; rtl = true } }

abbrev pub new_lang_no_sep : String → LanguageModel
new_lang_no_sep name = record { name = name; metadata = record { separator = ""; rtl = false } }

unfoldable pub models_list : GoMap String
models_list =
    ("ar", "vosk-model-ar-mgb2-0.4")
    ∷ ("ar_TN", "vosk-model-small-ar-tn-0.1-linto")
    ∷ ("br", "vosk-model-br-0.8")
    ∷ ("ca", "vosk-model-small-ca-0.4")
    ∷ ("cs", "vosk-model-small-cs-0.4-rhasspy")
    ∷ ("de", "vosk-model-small-de-0.15")
    ∷ ("en", "vosk-model-en-us-0.22")
    ∷ ("eo", "vosk-model-small-eo-0.42")
    ∷ ("es", "vosk-model-small-es-0.42")
    ∷ ("fa", "vosk-model-small-fa-0.42")
    ∷ ("fr", "vosk-model-small-fr-0.22")
    ∷ ("hi", "vosk-model-small-hi-0.22")
    ∷ ("it", "vosk-model-small-it-0.22")
    ∷ ("ja", "vosk-model-small-ja-0.22")
    ∷ ("kk", "vosk-model-small-kz-0.15")
    ∷ ("ko", "vosk-model-small-ko-0.22")
    ∷ ("nl", "vosk-model-small-nl-0.22")
    ∷ ("pl", "vosk-model-small-pl-0.22")
    ∷ ("pt", "vosk-model-small-pt-0.3")
    ∷ ("ru", "vosk-model-small-ru-0.22")
    ∷ ("te", "vosk-model-small-te-0.42")
    ∷ ("tg", "vosk-model-small-tg-0.22")
    ∷ ("tr", "vosk-model-small-tr-0.3")
    ∷ ("uk", "vosk-model-small-uk-v3-nano")
    ∷ ("uz", "vosk-model-small-uz-0.22")
    ∷ ("vi", "vosk-model-small-vn-0.4")
    ∷ ("zh", "vosk-model-small-cn-0.22")
    ∷ []
