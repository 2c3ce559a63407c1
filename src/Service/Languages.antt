-- ===== src/Service/Languages.antt =====
-- The languages that the app offers for translations (`GetTranslationLanguages` and
-- `GetTranslationLanguagesForCapabilities` of internal/service/service.go).
use go_live_transcription.Prelude.{ℕ, String, Option, none, some, [], Result, ok, err}
use go_live_transcription.GoMap.{lookup, insert}
use go_live_transcription.Translation.Ocp.{
  OcpTranslator, Fetch, Error, SupportedTranslationLanguages, new_ocp_translator,
  get_translation_languages,
}
use go_live_transcription.Translation.Meta.{MetaTranslator, get_languages}
use go_live_transcription.Service.Application.{RoomState, Application}

-- The answer to a result, with two empty maps for an error.
unfoldable pub languages_or_empty :
    OcpTranslator × Result Error SupportedTranslationLanguages → SupportedTranslationLanguages
languages_or_empty (t, ok langs) = langs
languages_or_empty (t, err e) = record { origin_languages = []; target_languages = [] }

-- The translator made only to ask.
abbrev pub dummy : OcpTranslator
dummy = new_ocp_translator "en" "en" "languages-dummy"

-- What the app does with the result of the room's translators; where it is an error, the answer to a
-- second request decides.
unfoldable pub room_languages :
    MetaTranslator × Result Error SupportedTranslationLanguages
    → ℕ
    → Fetch
    → String
    → RoomState
    → Application
    → Application × SupportedTranslationLanguages
unfolding languages_or_empty
room_languages (meta, ok langs) now second token rs app =
    (record app { rooms = insert token (record rs { meta = meta }) app.rooms }, langs)
room_languages (meta, err e) now second token rs app = (
  record app { rooms = insert token (record rs { meta = meta }) app.rooms },
  languages_or_empty (get_translation_languages now second dummy),
)

unfoldable pub translation_languages_found :
    Option RoomState
    → ℕ
    → Fetch
    → Fetch
    → String
    → Application
    → Application × SupportedTranslationLanguages
unfolding room_languages
translation_languages_found none now first second token app =
    (app, languages_or_empty (get_translation_languages now second dummy))
translation_languages_found (some rs) now first second token app =
    room_languages (get_languages now first rs.meta) now second token rs app

unfoldable pub room_translation_languages :
    ℕ → Fetch → Fetch → String → Application → Application × SupportedTranslationLanguages
unfolding translation_languages_found
room_translation_languages now first second token app =
    translation_languages_found (lookup token app.rooms) now first second token app

unfoldable pub languages_or_none :
    OcpTranslator × Result Error SupportedTranslationLanguages
    → Option SupportedTranslationLanguages
languages_or_none (t, ok langs) = some langs
languages_or_none (t, err e) = none

unfoldable pub languages_for_capabilities : ℕ → Fetch → Option SupportedTranslationLanguages
unfolding languages_or_none
languages_for_capabilities now f = languages_or_none (get_translation_languages now f dummy)
