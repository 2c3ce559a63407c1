-- ===== src/Service/Application.antt =====
-- The rooms, and what the app does with one that exists (internal/service/service.go). The mutex is
-- held for a whole look-up or update of the map; the operations are modelled one after the other.
use go_live_transcription.Prelude.{
  ℕ, String, ◌==◌, Bool, false, Option, none, some, List, [], ◌∷◌, if◌then◌else◌,
}
use go_live_transcription.GoMap.{GoMap, lookup, insert, delete}
use go_live_transcription.Signaling.Messages.{HpbSettings}
use go_live_transcription.Signaling.Client.{SpreedClient, close}
use go_live_transcription.Translation.Ocp.{Error, Fetch}
use go_live_transcription.Translation.Meta.{
  MetaTranslator, add_translator, remove_translator, shutdown,
}
use go_live_transcription.Vosk.Models.{ModelManager, ModelDirectory, ModelError}
use go_live_transcription.Vosk.Manager.{TranscriberManager, Managed, set_language}

-- `roomState`. The two senders keep nothing between their rounds; `running` says that the context of
-- the three loops is not cancelled.
pub record RoomState : Type 0 where
  pub client : SpreedClient
  pub transcriber : TranscriberManager
  pub meta : MetaTranslator
  pub running : Bool

-- `Application`, with the models of the process. `ended` lists the rooms that were taken from the
-- map, as they were left.
pub record Application : Type 0 where
  pub hpb_settings : Option HpbSettings
  pub rooms : GoMap RoomState
  pub models : ModelManager
  pub ended : List RoomState

-- `rs.client.Close()` in the map.
unfoldable pub close_room : RoomState → RoomState
close_room rs = record rs { client = close rs.client }

-- `rs.cancel()` and `rs.meta.Shutdown()`. The audio worker closes the recognizers by itself when it
-- sees that its context is cancelled; that is not part of this step.
unfoldable pub stop_room : RoomState → RoomState
stop_room rs = record rs { running = false; meta = shutdown rs.meta }

unfoldable pub leave_found : Option RoomState → String → Application → Application
unfolding close_room
leave_found none token app = app
leave_found (some rs) token app = record app { rooms = insert token (close_room rs) app.rooms }

unfoldable pub leave_call : String → Application → Application
unfolding leave_found
leave_call token app = leave_found (lookup token app.rooms) token app

unfoldable pub clean_found : Option RoomState → String → Application → Application
unfolding stop_room
clean_found none token app = app
clean_found (some rs) token app =
    if rs.client.defunct
    then record app { rooms = delete token app.rooms; ended = stop_room rs ∷ app.ended }
    else app

-- The callback that a closed client starts.
unfoldable pub leave_call_cb : String → Application → Application
unfolding clean_found
leave_call_cb token app = clean_found (lookup token app.rooms) token app

-- The loop of `Shutdown`, which takes each room from the map.
unfoldable pub end_each : GoMap RoomState → List RoomState → List RoomState
unfolding stop_room close_room
end_each [] ended = ended
end_each ((token, rs) ∷ rooms) ended = end_each rooms (stop_room (close_room rs) ∷ ended)

unfoldable pub shutdown_all : Application → Application
unfolding end_each
shutdown_all app = record app { rooms = []; ended = end_each app.rooms app.ended }

-- The end of `SetCallLanguage`, from what `audioWorker.SetLanguage` gives.
unfoldable pub switch_room :
    Managed × Option ModelError
    → String
    → String
    → RoomState
    → Application
    → Application × Option ModelError
switch_room ((tm, mm), some e) lang token rs app = (
  record app {
    models = mm;
    rooms =
        insert token
          (record rs {
            client = go_live_transcription.Signaling.Client.set_room_lang_id lang rs.client;
            transcriber = tm;
          })
          app.rooms;
  },
  some e,
)
switch_room ((tm, mm), none) lang token rs app = (
  record app {
    models = mm;
    rooms =
        insert token
          (record rs {
            client = go_live_transcription.Signaling.Client.set_room_lang_id lang rs.client;
            transcriber = tm;
            meta = go_live_transcription.Translation.Meta.set_room_lang_id lang rs.meta;
          })
          app.rooms;
  },
  none,
)

unfoldable pub set_language_found :
    Option RoomState
    → (String → ModelDirectory)
    → String
    → String
    → Application
    → Application × Option ModelError
unfolding switch_room
set_language_found none at token lang app = (app, none)
set_language_found (some rs) at token lang app =
    switch_room (set_language at lang (rs.transcriber, app.models)) lang token rs app

unfoldable pub set_call_language :
    (String → ModelDirectory) → String → String → Application → Application × Option ModelError
unfolding set_language_found
set_call_language at token lang app = set_language_found (lookup token app.rooms) at token lang app

pub data TargetError : Type 0 where
  no_session : TargetError
  target_refused : Error → TargetError

-- The end of `SetTargetLanguage`, from what `AddTranslator` gives.
abbrev pub refused : Option Error → Option TargetError
refused none = none
refused (some e) = some (target_refused e)

unfoldable pub set_target :
    Option String
    → ℕ
    → Fetch
    → String
    → String
    → RoomState
    → Application
    → Application × Option TargetError
set_target none now f token nc rs app = (
  record app { rooms = insert token (record rs { meta = remove_translator nc rs.meta }) app.rooms },
  none,
)
set_target (some lang) now f token nc rs app =
    let r = add_translator now f lang nc rs.meta in
    (record app { rooms = insert token (record rs { meta = r.0 }) app.rooms }, refused r.1)

-- The test `langID == nil || *langID == ""`.
abbrev pub wanted : Option String → Option String
wanted none = none
wanted (some lang) = if lang == "" then none else some lang

unfoldable pub set_target_found :
    Option RoomState
    → ℕ
    → Fetch
    → String
    → String
    → Option String
    → Application
    → Application × Option TargetError
unfolding set_target
set_target_found none now f token nc lang app = (app, some no_session)
set_target_found (some rs) now f token nc lang app = set_target (wanted lang) now f token nc rs app

unfoldable pub set_target_language :
    ℕ → Fetch → String → String → Option String → Application → Application × Option TargetError
unfolding set_target_found
set_target_language now f token nc lang app =
    set_target_found (lookup token app.rooms) now f token nc lang app
