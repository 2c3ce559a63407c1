-- ===== src/Languages/Fourth.antt =====
-- A part of `LanguageMap` of internal/languages/models.go, in the order of the source.
use go_live_transcription.Prelude.{[], ◌∷◌}
use go_live_transcription.GoMap.{GoMap}
use go_live_transcription.Languages.Model.{LanguageModel, new_lang, new_lang_rtl, new_lang_no_sep}

unfoldable pub languages_fourth : GoMap LanguageModel
languages_fourth =
    ("vot", new_lang "Votic")
    ∷ ("wa", new_lang "Walloon")
    ∷ ("wak", new_lang "Wakashan languages")
    ∷ ("wal", new_lang "Wolaytta")
    ∷ ("war", new_lang "Waray")
    ∷ ("was", new_lang "Washo")
    ∷ ("wo", new_lang "Wolof")
    ∷ ("xal", new_lang "Kalmyk")
    ∷ ("xh", new_lang "Xhosa")
    ∷ ("xog", new_lang "Soga")
    ∷ ("yao", new_lang "Yao")
    ∷ ("yap", new_lang "Yapese")
    ∷ ("yav", new_lang "Yangben")
    ∷ ("yi", new_lang_rtl "Yiddish")
    ∷ ("yo", new_lang "Yoruba")
    ∷ ("yrl", new_lang "Nheengatu")
    ∷ ("yue", new_lang "Cantonese")
    ∷ ("za", new_lang "Zhuang")
    ∷ ("zap", new_lang "Zapotec")
    ∷ ("zbl", new_lang "Blissymbols")
    ∷ ("zen", new_lang "Zenaga")
    ∷ ("zh", new_lang_no_sep "中国")
    ∷ ("zu", new_lang "Zulu")
    ∷ ("zun", new_lang "Zuni")
    ∷ []
