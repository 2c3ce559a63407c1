-- ===== src/Tests/Server.antt =====
-- The process and the requests of the app API: the theorems at inputs.
use mathlib.Core.List.{Memᴰ}
use go_live_transcription.Prelude.{◌≡◌, refl, true, Option, none, some, List, [], ◌∷◌, ok, ◌⊎◌}
use go_live_transcription.GoMap.{insert, lookup}
use go_live_transcription.AppApi.Base64.{Bytes}
use go_live_transcription.AppApi.Auth.{load_config, encode_auth}
use go_live_transcription.AppApi.Client.{
  get_method, Http, HttpRequest, OcsError, codes, set_headers, ocs_get, ocs_put, exchange,
}
use go_live_transcription.AppApi.Requests.{Admits, gets, ocs_admitted}
use go_live_transcription.Service.Application.{
  RoomState, Application, shutdown_all, close_room, stop_room,
}
use go_live_transcription.Signaling.Messages.{HpbSettings}
use go_live_transcription.Service.Startup.{new_application}
use go_live_transcription.Service.Ending.{Over}
use go_live_transcription.Translation.Ocp.{unreachable as no_answer}
use go_live_transcription.Handlers.Routes.{Around, HttpCall, Handler, new_handler, write_report}
use go_live_transcription.Server.{Happening, request, callback, serve, main}
use go_live_transcription.Server.Credentials.{Credentials, serve_guarded}
use go_live_transcription.Server.Ending.{at_signal, main_ends}
use go_live_transcription.Tests.AppApi.{environment, config}
use go_live_transcription.Tests.Service.{endpoints, hmac, unreachable, room}
use go_live_transcription.Tests.Samples.{settings, hello}
use go_live_transcription.Tests.Handlers.{all_there}

abbrev http : Http
http = record { valid = λ url. true; send = λ req. none; data_of = λ body. none }

abbrev no_settings : Bytes → Option HpbSettings
no_settings body = none

abbrev around : Around
around = record {
  fetched = none;
  attempts = unreachable;
  ends = endpoints;
  at = all_there;
  now = 0;
  first = no_answer;
  second = no_answer;
}

-- A request to enable the app, without headers.
abbrev bare : HttpCall
bare = record {
  method = "PUT";
  path = "/enabled";
  header = [];
  enabled = "1";
  room_token = "";
  transcribe = none;
  leave = none;
  language = none;
  target = none;
}

-- The same with the headers of the app's own client.
abbrev signed : HttpCall
signed = record bare { header = set_headers config (codes "admin") [] }

abbrev fresh : Handler
fresh = new_handler config (new_application config http no_settings)

bare_is_refused : serve hmac around bare fresh ≡ (write_report 401, fresh)
unfolding serve go_live_transcription.AppApi.Auth.auth_middleware
    go_live_transcription.AppApi.Client.header_of go_live_transcription.GoMap.lookup
bare_is_refused = refl

serve_guarded_example : ((serve hmac around signed fresh).1 ≡ fresh) ⊎ Credentials config signed
unfolding load_config new_handler
serve_guarded_example = serve_guarded hmac environment around signed fresh refl

-- A request for transcripts of a call, from a Nextcloud with settings and a server that answers.
abbrev reachable : Around
reachable = record around {
  fetched = some settings;
  attempts = λ n. record { dialed = true; frames = some hello ∷ []; nonce = "x" };
}

abbrev transcribing : HttpCall
transcribing = record signed {
  method = "POST";
  path = "/api/v1/call/transcribe";
  transcribe = some (record {
    room_token = "room";
    nc_session_id = "n1";
    enable = some true;
    lang_id = "en";
    translation_target_lang_id = none;
  });
}

abbrev one_request : List Happening
one_request = request reachable transcribing ∷ []

abbrev room_or : Option RoomState → RoomState
room_or none = room
room_or (some rs) = rs

-- The room that the request starts.
abbrev started : RoomState
started = room_or (lookup "room" (at_signal hmac http no_settings config one_request).service.rooms)

room_is_started :
    lookup "room" (at_signal hmac http no_settings config one_request).service.rooms ≡ some started
unfolding lookup go_live_transcription.Server.serve_all
    go_live_transcription.AppApi.Auth.auth_middleware go_live_transcription.AppApi.Client.header_of
    set_headers insert encode_auth new_handler go_live_transcription.AppApi.Base64.char_of
    go_live_transcription.AppApi.Base64.value_of go_live_transcription.Handlers.Routes.serve_mux
    go_live_transcription.Handlers.Routes.find_route
    go_live_transcription.Handlers.Routes.register_routes
    go_live_transcription.Handlers.transcribe_call
    go_live_transcription.Service.Request.transcript_req new_application
    go_live_transcription.Signaling.Connect.connect
    go_live_transcription.Signaling.Connect.open_session
    go_live_transcription.Signaling.Connect.handshake
    go_live_transcription.Signaling.Connect.complete
    go_live_transcription.Signaling.Connect.reaction
    go_live_transcription.Signaling.Client.new_spreed_client
room_is_started = refl

main_ends_example :
    (app : Application) × (main hmac http no_settings environment one_request
        (request around signed ∷ callback "room" ∷ request reachable transcribing ∷ [])
      ≡ ok app)
    × ((shutdown_all (at_signal hmac http no_settings config one_request).service).rooms ≡ [])
    × Memᴰ (stop_room (close_room started)) app.ended
    × Over (stop_room (close_room started))
unfolding load_config
main_ends_example =
    main_ends hmac http no_settings environment config one_request
      (request around signed ∷ callback "room" ∷ request reachable transcribing ∷ []) "room" started
      refl room_is_started

-- A request of the client for the languages.
abbrev sent : HttpRequest
sent = record {
  method = get_method;
  url = codes "/types";
  header = insert "OCS-APIRequest" (codes "true") (set_headers config (codes "admin") []);
  body = [];
}

ocs_admitted_example : Admits config sent.header (codes "admin")
unfolding load_config ocs_get exchange
ocs_admitted_example =
    ocs_admitted environment config http (gets (codes "/types") (codes "admin")) sent refl refl refl
      refl refl
