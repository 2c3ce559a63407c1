-- ===== src/Tests/Service.antt =====
-- The rooms of the app: the theorems at inputs.
use mathlib.Core.List.{Memᴰ}
use go_live_transcription.Prelude.{ℕ, ◌+◌, String, ◌≡◌, refl, true, false, none, some, [], ◌∷◌}
use go_live_transcription.GoMap.{lookup, has, delete}
use go_live_transcription.Signaling.Connect.{dial_failed}
use go_live_transcription.Translation.Meta.{new_meta_translator}
use go_live_transcription.Vosk.Models.{new_model_manager}
use go_live_transcription.Vosk.Manager.{new_transcriber_manager}
use go_live_transcription.Service.Application.{RoomState, Application, leave_call_cb}
use go_live_transcription.Service.Request.{Attempt, Endpoints, done, tries_failed, transcript_req}
use go_live_transcription.Service.Ending.{Over}
use go_live_transcription.Service.Abandoned.{keeps_room, transcript_req-keeps, abandoned_room}
use go_live_transcription.Signaling.Client.{fire_deferred_close}
use go_live_transcription.Service.Idle.{fire_in, idle_room_ends}
use go_live_transcription.Tests.Samples.{busy, settings}

abbrev pub room : RoomState
room = record {
  client = busy;
  transcriber = new_transcriber_manager "en" 16000;
  meta = new_meta_translator "room" "en";
  running = true;
}

abbrev pub app : Application
app = record {
  hpb_settings = some settings;
  rooms = ("room", room) ∷ ("other", room) ∷ [];
  models = new_model_manager;
  ended = [];
}

abbrev pub endpoints : Endpoints
endpoints = record { secret = "s"; ws_url = "wss://hpb/spreed"; backend_url = "https://nc/backend" }

abbrev pub hmac : String → String → String
hmac secret nonce = nonce

-- The signaling server is out of reach.
abbrev pub unreachable : ℕ → Attempt
unreachable n = record { dialed = false; frames = []; nonce = "x" }

transcript_req-keeps_example :
    let end = transcript_req hmac none unreachable endpoints "new" "n1" "en" true app in
    has "new" end.1.rooms ≡ keeps_room end.0
unfolding lookup
transcript_req-keeps_example =
    transcript_req-keeps hmac none unreachable endpoints "new" "n1" "en" settings app refl refl

abandoned_room_example :
    let first = transcript_req hmac none unreachable endpoints "new" "n1" "en" true app in
    let second = transcript_req hmac none unreachable endpoints "new" "n2" "en" true first.1 in
    (first.0 ≡ tries_failed (some dial_failed))
    × (second.0 ≡ done)
    × ((rs : RoomState) × (lookup "new" second.1.rooms ≡ some rs) × (rs.client.conn ≡ false))
unfolding lookup
abandoned_room_example =
    abandoned_room hmac none none unreachable unreachable endpoints "new" "n1" "n2" "en" settings
      app refl refl (λ n. refl)

-- A room whose only target is `h1`.
abbrev one_listener : Application
one_listener = record app {
  rooms = ("room", record room { client = record busy { targets = ("h1", tt) ∷ [] } }) ∷ [];
}

idle_room_ends_example :
    let left =
      (transcript_req hmac none unreachable endpoints "room" "n1" "en" false one_listener).1 in
    (t : ℕ) × (waiting : RoomState) × (lookup "room" left.rooms ≡ some waiting)
    × (waiting.client.deferred_close_timer ≡ some t)
    × Memᴰ t waiting.client.pending_timers
    × ((fire_deferred_close t waiting.client).callbacks ≡ waiting.client.callbacks + 1)
    × (let over = leave_call_cb "room" (fire_in "room" t left) in
        (last : RoomState) × (over.ended ≡ last ∷ [])
        × Over last
        × (lookup "room" over.rooms ≡ none))
unfolding lookup delete
idle_room_ends_example =
    idle_room_ends hmac none unreachable endpoints "room" "n1" "h1" "en"
      (record room { client = record busy { targets = ("h1", tt) ∷ [] } }) one_listener refl refl
      refl refl
