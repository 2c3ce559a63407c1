-- ===== src/Tests/Handlers.antt =====
-- HTTP handlers: the theorem at an input.
use go_live_transcription.Prelude.{String, ◌≡◌, refl, some, true, [], ◌∷◌}
use go_live_transcription.GoMap.{lookup}
use go_live_transcription.Vosk.Models.{ModelDirectory, loads}
use go_live_transcription.Handlers.{RoomLanguageSetRequest, handle_set_call_language, status_ok}
use go_live_transcription.Handlers.Statuses.{Coherent, SpeaksIn, handle_set_call_language-Speaks}
use go_live_transcription.Service.Application.{RoomState, Application}
use go_live_transcription.Translation.Ocp.{new_ocp_translator}
use go_live_transcription.Translation.Meta.{new_meta_translator}
use go_live_transcription.Vosk.Manager.{new_transcriber_manager}
use go_live_transcription.Vosk.Models.{new_model_manager}
use go_live_transcription.Vosk.Recognizer.{new_recognizer}
use go_live_transcription.Tests.Samples.{busy, settings}

abbrev pub all_there : String → ModelDirectory
all_there dir = loads 3

-- A room with one recognizer and one translator.
abbrev speaking : RoomState
speaking = record {
  client = busy;
  transcriber = record (new_transcriber_manager "en" 16000) {
    recognizers = ("h1", new_recognizer 7 3 "h1" "en" 16000) ∷ [];
  };
  meta = record (new_meta_translator "room" "en") {
    translators =
        ("fr", record (new_ocp_translator "en" "fr" "room") { nc_session_ids = ("n1", tt) ∷ [] })
        ∷ [];
    sid_lang_map = ("n1", "fr") ∷ [];
  };
  running = true;
}

abbrev app : Application
app = record {
  hpb_settings = some settings;
  rooms = ("room", speaking) ∷ [];
  models = new_model_manager;
  ended = [];
}

speaking-Coherent : Coherent speaking
unfolding new_transcriber_manager new_recognizer new_meta_translator new_ocp_translator
speaking-Coherent = record { hears = (refl, tt); translates = (refl, tt) }

abbrev german : RoomLanguageSetRequest
german = record { room_token = "room"; lang_id = "de" }

german_is_set : (handle_set_call_language all_there (some german) app).0 ≡ status_ok
unfolding handle_set_call_language go_live_transcription.GoMap.has
    go_live_transcription.Languages.Supported.vosk_supported_language_map
    go_live_transcription.Languages.Supported.init_loop
    go_live_transcription.Languages.Model.models_list
    go_live_transcription.Languages.Table.language_map go_live_transcription.GoMap.insert
    go_live_transcription.Service.Application.set_call_language
    go_live_transcription.Vosk.Manager.set_language
    go_live_transcription.Vosk.Manager.new_transcriber_manager
    go_live_transcription.Vosk.Models.get_model go_live_transcription.Vosk.Models.new_model_manager
german_is_set = refl

handle_set_call_language-Speaks_example :
    SpeaksIn "room" "de" (handle_set_call_language all_there (some german) app).1
unfolding lookup
handle_set_call_language-Speaks_example =
    handle_set_call_language-Speaks all_there german speaking app refl speaking-Coherent
      german_is_set
