-- ===== src/Handlers/Routes.antt =====
-- All handlers behind their routes (internal/handlers/handlers.go). A request that is not routed is
-- answered by Go's ServeMux, with 404, or with 405 where only the method is wrong.
use go_live_transcription.Prelude.{
  ℕ, ◌+◌, String, ◌==◌, Bool, false, ◌&&◌, ◌||◌, Option, none, some, List, [], ◌∷◌, ◌++◌,
  if◌then◌else◌,
}
use go_live_transcription.GoMap.{GoMap}
use go_live_transcription.Languages.Model.{LanguageModel}
use go_live_transcription.Languages.Supported.{vosk_supported_language_map}
use go_live_transcription.Signaling.Messages.{HpbSettings}
use go_live_transcription.Translation.Ocp.{Fetch, SupportedTranslationLanguages}
use go_live_transcription.Vosk.Models.{ModelDirectory}
use go_live_transcription.AppApi.Base64.{Bytes}
use go_live_transcription.AppApi.Auth.{Config}
use go_live_transcription.Service.Application.{Application}
use go_live_transcription.Service.Request.{Attempt, Endpoints}
use go_live_transcription.Service.Languages.{languages_for_capabilities, room_translation_languages}
use go_live_transcription.Handlers.{
  TranscribeRequest, RoomLanguageSetRequest, TargetLanguageSetRequest, LeaveCallRequest, status_ok,
  transcribe_call, handle_leave_call, handle_set_call_language, handle_set_target_language,
}

-- `Handler`. `inits` counts the goroutines that `Init` has started.
pub record Handler : Type 0 where
  pub config : Config
  pub service : Application
  pub enabled : Bool
  pub inits : ℕ

unfoldable pub new_handler : Config → Application → Handler
new_handler cfg service = record { config = cfg; service = service; enabled = false; inits = 0 }

-- What `GetCapabilities` writes under the app's id.
pub record Capabilities : Type 0 where
  pub version : Bytes
  pub features : List String
  pub supported_languages : GoMap LanguageModel
  pub supported_translation_languages : Option SupportedTranslationLanguages

-- The contents of a response; the texts that report the success or the error of an operation on a
-- room are left out.
pub data Payload : Type 0 where
  no_fields report : Payload
  status_response : String → Payload
  error_response : String → Payload
  enabled_response : Bool → Payload
  languages : GoMap LanguageModel → Payload
  capabilities : Capabilities → Payload
  translation_languages : SupportedTranslationLanguages → Payload

-- A response, with no status where the request waits to be made again.
pub record Response : Type 0 where
  pub status : Option ℕ
  pub payload : Payload

-- `writeJSON` with 200.
abbrev pub write_ok : Payload → Response
write_ok payload = record { status = some status_ok; payload = payload }

abbrev pub write_report : ℕ → Response
write_report status = record { status = some status; payload = report }

unfoldable pub heartbeat : Handler → Response × Handler
heartbeat h = (write_ok (status_response "ok"), h)

unfoldable pub set_enabled : String → Handler → Response × Handler
set_enabled param h =
    (write_ok (error_response ""), record h { enabled = param == "1" || param == "true" })

unfoldable pub get_enabled : Handler → Response × Handler
get_enabled h = (write_ok (enabled_response h.enabled), h)

unfoldable pub init : Handler → Response × Handler
init h = (write_ok no_fields, record h { inits = h.inits + 1 })

unfoldable pub handle_get_languages : Handler → Response × Handler
handle_get_languages h = (write_ok (languages vosk_supported_language_map), h)

abbrev pub features_with : Option SupportedTranslationLanguages → List String
features_with none = "live_transcription" ∷ []
features_with (some langs) = ("live_transcription" ∷ []) ++ "live_translation" ∷ []

unfoldable pub get_capabilities : ℕ → Fetch → Handler → Response × Handler
get_capabilities now f h =
    let langs = languages_for_capabilities now f in
    (
      write_ok (
          capabilities (record {
            version = h.config.app_version;
            features = features_with langs;
            supported_languages = vosk_supported_language_map;
            supported_translation_languages = langs;
          })),
      h,
    )

-- What a request meets: the answers to the app's own requests, and the clock.
pub record Around : Type 0 where
  pub fetched : Option HpbSettings
  pub attempts : ℕ → Attempt
  pub ends : Endpoints
  pub at : String → ModelDirectory
  pub now : ℕ
  pub first : Fetch
  pub second : Fetch

-- A request, with its query parameters and what its body is as each of the requests.
pub record HttpCall : Type 0 where
  pub method : String
  pub path : String
  pub header : GoMap Bytes
  pub enabled : String
  pub room_token : String
  pub transcribe : Option TranscribeRequest
  pub leave : Option LeaveCallRequest
  pub language : Option RoomLanguageSetRequest
  pub target : Option TargetLanguageSetRequest

pub data Route : Type 0 where
  to_heartbeat to_set_enabled to_get_enabled to_init to_capabilities to_languages : Route
  to_transcribe to_leave to_set_language to_translation_languages to_set_target : Route

-- `RegisterRoutes`
unfoldable pub register_routes : List (String × String × Route)
register_routes =
    ("GET", "/heartbeat", to_heartbeat)
    ∷ ("PUT", "/enabled", to_set_enabled)
    ∷ ("GET", "/enabled", to_get_enabled)
    ∷ ("POST", "/init", to_init)
    ∷ ("GET", "/capabilities", to_capabilities)
    ∷ ("GET", "/api/v1/languages", to_languages)
    ∷ ("POST", "/api/v1/call/transcribe", to_transcribe)
    ∷ ("POST", "/api/v1/call/leave", to_leave)
    ∷ ("POST", "/api/v1/call/set-language", to_set_language)
    ∷ ("GET", "/api/v1/translation/languages", to_translation_languages)
    ∷ ("POST", "/api/v1/translation/set-target-language", to_set_target)
    ∷ []

-- A pattern with GET matches HEAD as well.
abbrev pub matches : String → String → Bool
matches pattern method = pattern == method || (pattern == "GET" && method == "HEAD")

unfoldable pub find_route : String → String → List (String × String × Route) → Option Route
find_route method path [] = none
find_route method path ((m, p, route) ∷ routes) =
    if matches m method && p == path then some route else find_route method path routes

-- Whether a path is routed, for any method.
abbrev pub routed : String → List (String × String × Route) → Bool
routed path [] = false
routed path ((m, p, route) ∷ routes) = p == path || routed path routes

-- A handler that gives the app another state.
abbrev pub with_service : Handler → ℕ × Application → Response × Handler
with_service h (status, app) = (write_report status, record h { service = app })

module _ (hmac : String → String → String) where
  unfoldable pub handle : Route → Around → HttpCall → Handler → Response × Handler
  unfolding heartbeat set_enabled get_enabled init handle_get_languages get_capabilities
  handle to_heartbeat a c h = heartbeat h
  handle to_set_enabled a c h = set_enabled c.enabled h
  handle to_get_enabled a c h = get_enabled h
  handle to_init a c h = init h
  handle to_capabilities a c h = get_capabilities a.now a.second h
  handle to_languages a c h = handle_get_languages h
  handle to_transcribe a c h =
      let r = transcribe_call hmac a.fetched a.attempts a.ends c.transcribe h.service in
      (record { status = r.0; payload = report }, record h { service = r.1 })
  handle to_leave a c h = with_service h (handle_leave_call c.leave h.service)
  handle to_set_language a c h = with_service h (handle_set_call_language a.at c.language h.service)
  handle to_translation_languages a c h =
      let r = room_translation_languages a.now a.first a.second c.room_token h.service in
      (write_ok (translation_languages r.1), record h { service = r.0 })
  handle to_set_target a c h =
      with_service h (handle_set_target_language a.now a.first c.target h.service)

  unfoldable pub handle_found : Option Route → Around → HttpCall → Handler → Response × Handler
  unfolding handle
  handle_found none a c h = (write_report (if routed c.path register_routes then 405 else 404), h)
  handle_found (some route) a c h = handle route a c h

  unfoldable pub serve_mux : Around → HttpCall → Handler → Response × Handler
  unfolding handle_found
  serve_mux a c h = handle_found (find_route c.method c.path register_routes) a c h
