-- ===== src/Server/Ending.antt =====
-- The end of the process (main.go).
use mathlib.Core.List.{Memᴰ}
use go_live_transcription.Prelude.{
  String, ◌≡◌, refl, ap, Bool, true, false, Option, none, some, List, [], ◌∷◌, ◌==◌, ◌||◌, not,
  if◌then◌else◌, ok,
}
use go_live_transcription.GoMap.{has, lookup}
use go_live_transcription.Languages.Supported.{vosk_supported_language_map}
use go_live_transcription.AppApi.Auth.{
  Config, load_config, Decision, skipped, admitted, missing_headers, invalid_app_id, invalid_secret,
  auth_middleware,
}
use go_live_transcription.AppApi.Client.{Http, header_of}
use go_live_transcription.AppApi.Base64.{Bytes}
use go_live_transcription.Signaling.Messages.{HpbSettings}
use go_live_transcription.Service.Startup.{new_application}
use go_live_transcription.Service.Application.{
  RoomState, Application, shutdown_all, leave_call_cb, close_room, stop_room,
}
use go_live_transcription.Service.Ending.{Over, stop-Over, close-defunct}
use go_live_transcription.Service.Runs.{
  requests, leaves, calls_back, switches, translates, asks_languages, step-ended, end_each-stops,
}
use go_live_transcription.Handlers.{
  or_true, TranscribeRequest, LeaveCallRequest, RoomLanguageSetRequest, TargetLanguageSetRequest,
  transcribe_call, handle_leave_call, handle_set_call_language, set_unless,
  handle_set_target_language,
}
use go_live_transcription.Handlers.Routes.{
  Handler, new_handler, Around, HttpCall, Route, serve_mux, handle_found, handle, find_route,
  register_routes, heartbeat, set_enabled, get_enabled, init, handle_get_languages,
  get_capabilities, to_heartbeat, to_set_enabled, to_get_enabled, to_init, to_capabilities,
  to_languages, to_transcribe, to_leave, to_set_language, to_translation_languages, to_set_target,
}
use go_live_transcription.Server.{
  after_auth, serve, skip_auth, Happening, request, callback, happen, serve_all, main, main_with,
}

-- A room is among those that the app has ended.
abbrev HasEnded : RoomState → Handler → Type 0
HasEnded gone h = Memᴰ gone h.service.ended

module _ (gone : RoomState) where
  leave-ended :
      (req : Option LeaveCallRequest) (app : Application)
      → Memᴰ gone app.ended
      → Memᴰ gone (handle_leave_call req app).1.ended
  unfolding handle_leave_call
  leave-ended none app v = v
  leave-ended (some req) app v = step-ended (λ x y. y) gone (leaves req.room_token) app v

  unless-ended :
      (refused : Bool) (a : Around) (req : RoomLanguageSetRequest) (app : Application)
      → Memᴰ gone app.ended
      → Memᴰ gone (set_unless refused a.at req app).1.ended
  unfolding set_unless
  unless-ended true a req app v = v
  unless-ended false a req app v =
      step-ended (λ x y. y) gone (switches a.at req.room_token req.lang_id) app v

  language-ended :
      (a : Around) (req : Option RoomLanguageSetRequest) (app : Application)
      → Memᴰ gone app.ended
      → Memᴰ gone (handle_set_call_language a.at req app).1.ended
  unfolding handle_set_call_language
  language-ended a none app v = v
  language-ended a (some req) app v =
      unless-ended (req.lang_id == "" || not (has req.lang_id vosk_supported_language_map)) a req
        app v

  target-ended :
      (a : Around) (req : Option TargetLanguageSetRequest) (app : Application)
      → Memᴰ gone app.ended
      → Memᴰ gone (handle_set_target_language a.now a.first req app).1.ended
  unfolding handle_set_target_language
  target-ended a none app v = v
  target-ended a (some req) app v =
      step-ended (λ x y. y) gone
        (translates a.now a.first req.room_token req.nc_session_id req.lang_id) app v

  module _ (hmac : String → String → String) where
    transcribe-ended :
        (a : Around) (req : Option TranscribeRequest) (app : Application)
        → Memᴰ gone app.ended
        → Memᴰ gone (transcribe_call hmac a.fetched a.attempts a.ends req app).1.ended
    unfolding transcribe_call
    transcribe-ended a none app v = v
    transcribe-ended a (some req) app v =
        let lang = if req.lang_id == "" then "en" else req.lang_id in
        step-ended hmac gone
          (requests a.fetched a.attempts a.ends req.room_token req.nc_session_id lang
            (or_true req.enable))
          app v

    handle-ended :
        (r : Route) (a : Around) (c : HttpCall) (h : Handler)
        → HasEnded gone h
        → HasEnded gone (handle hmac r a c h).1
    unfolding handle heartbeat set_enabled get_enabled init handle_get_languages get_capabilities
    handle-ended to_heartbeat a c h v = v
    handle-ended to_set_enabled a c h v = v
    handle-ended to_get_enabled a c h v = v
    handle-ended to_init a c h v = v
    handle-ended to_capabilities a c h v = v
    handle-ended to_languages a c h v = v
    handle-ended to_transcribe a c h v = transcribe-ended a c.transcribe h.service v
    handle-ended to_leave a c h v = leave-ended c.leave h.service v
    handle-ended to_set_language a c h v = language-ended a c.language h.service v
    handle-ended to_translation_languages a c h v =
        step-ended hmac gone (asks_languages a.now a.first a.second c.room_token) h.service v
    handle-ended to_set_target a c h v = target-ended a c.target h.service v

    found-ended :
        (r : Option Route) (a : Around) (c : HttpCall) (h : Handler)
        → HasEnded gone h
        → HasEnded gone (handle_found hmac r a c h).1
    unfolding handle_found
    found-ended none a c h v = v
    found-ended (some route) a c h v = handle-ended route a c h v

    after_auth-ended :
        (d : Decision) (a : Around) (c : HttpCall) (h : Handler)
        → HasEnded gone h
        → HasEnded gone (after_auth hmac d a c h).1
    unfolding after_auth serve_mux
    after_auth-ended skipped a c h v =
        found-ended (find_route c.method c.path register_routes) a c h v
    after_auth-ended (admitted user) a c h v =
        found-ended (find_route c.method c.path register_routes) a c h v
    after_auth-ended missing_headers a c h v = v
    after_auth-ended invalid_app_id a c h v = v
    after_auth-ended invalid_secret a c h v = v

    serve_all-ended :
        (xs : List Happening) (h : Handler) → HasEnded gone h → HasEnded gone (serve_all hmac xs h)
    unfolding serve_all happen serve
    serve_all-ended [] h v = v
    serve_all-ended (request a c ∷ xs) h v =
        let id = header_of "EX-APP-ID" c.header in
        let auth = header_of "AUTHORIZATION-APP-API" c.header in
        let d = auth_middleware h.config (skip_auth c.path) id auth in
        serve_all-ended xs (after_auth hmac d a c h).1 (after_auth-ended d a c h v)
    serve_all-ended (callback token ∷ xs) h v =
        serve_all-ended xs (record h { service = leave_call_cb token h.service })
          (step-ended hmac gone (calls_back token) h.service v)

module _ (hmac : String → String → String) where
  -- The app when the signal comes, after what has happened since the start.
  abbrev pub at_signal : Http → (Bytes → Option HpbSettings) → Config → List Happening → Handler
  at_signal http parse cfg before =
      serve_all hmac before (new_handler cfg (new_application cfg http parse))

  -- With an accepted configuration, whatever requests and callbacks come before the signal and while
  -- the server still runs after it, each of them run as a whole: the process ends, `Shutdown` leaves
  -- no room in the app's map, and each room that was in the map at the signal is at the end among
  -- those that were ended, with its client closed and its loops and its translation stopped.
  pub main_ends :
      (http : Http) (parse : Bytes → Option HpbSettings) (env cfg : Config)
      (before during : List Happening) (token : String) (rs : RoomState)
      → load_config env ≡ ok cfg
      → lookup token (at_signal http parse cfg before).service.rooms ≡ some rs
      → (app : Application) × (main hmac http parse env before during ≡ ok app)
        × ((shutdown_all (at_signal http parse cfg before).service).rooms ≡ [])
        × Memᴰ (stop_room (close_room rs)) app.ended
        × Over (stop_room (close_room rs))
  unfolding main main_with shutdown_all close_room
  main_ends http parse env cfg before during token rs accepted here =
      let h = at_signal http parse cfg before in
      let stopped : Handler = record h { service = shutdown_all h.service } in
      (
        (serve_all hmac during stopped).service,
        ap (λ r. main_with hmac http parse r before during) accepted,
        refl,
        serve_all-ended (stop_room (close_room rs)) hmac during stopped
            (end_each-stops rs token h.service.rooms h.service.ended here),
        stop-Over (close_room rs) (close-defunct rs.client),
      )
