-- ===== src/Handlers.antt =====
-- The HTTP handlers that change the app (internal/handlers/handlers.go). A body is none where it
-- does not parse; a response is its status code and whether it carries an error.
pub mod Statuses
pub mod Routes
use go_live_transcription.Prelude.{
  ℕ, String, ◌==◌, Bool, true, false, not, ◌&&◌, ◌||◌, Option, none, some, if◌then◌else◌,
}
use go_live_transcription.GoMap.{has}
use go_live_transcription.Languages.Supported.{vosk_supported_language_map}
use go_live_transcription.Signaling.Messages.{HpbSettings}
use go_live_transcription.Translation.Ocp.{Fetch}
use go_live_transcription.Vosk.Models.{ModelDirectory, ModelError}
use go_live_transcription.Service.Application.{
  Application, TargetError, leave_call, set_call_language, set_target_language,
}
use go_live_transcription.Service.Request.{
  Answer, done, deferred, settings_unavailable, connection_failed, tries_failed, Attempt, Endpoints,
  transcript_req,
}

pub record TranscribeRequest : Type 0 where
  pub room_token : String
  pub nc_session_id : String
  pub enable : Option Bool
  pub lang_id : String
  pub translation_target_lang_id : Option String

pub record RoomLanguageSetRequest : Type 0 where
  pub room_token : String
  pub lang_id : String

pub record TargetLanguageSetRequest : Type 0 where
  pub room_token : String
  pub nc_session_id : String
  pub lang_id : Option String

pub record LeaveCallRequest : Type 0 where
  pub room_token : String

-- The status codes that the handlers write.
abbrev pub status_ok : ℕ
status_ok = 200

abbrev pub status_bad_request : ℕ
status_bad_request = 400

abbrev pub status_internal_server_error : ℕ
status_internal_server_error = 500

abbrev pub status_service_unavailable : ℕ
status_service_unavailable = 503

abbrev pub or_true : Option Bool → Bool
or_true none = true
or_true (some enable) = enable

-- The status of a request that has ended; one that is deferred is made again first.
abbrev pub answer_status : Answer → Option ℕ
answer_status done = some status_ok
answer_status deferred = none
answer_status settings_unavailable = some status_service_unavailable
answer_status (connection_failed e) = some status_service_unavailable
answer_status (tries_failed e) = some status_service_unavailable

module _ (hmac : String → String → String) where
  unfoldable pub transcribe_call :
      Option HpbSettings
      → (ℕ → Attempt)
      → Endpoints
      → Option TranscribeRequest
      → Application
      → Option ℕ × Application
  transcribe_call fetched attempts ends none app = (some status_bad_request, app)
  transcribe_call fetched attempts ends (some req) app =
      let lang = if req.lang_id == "" then "en" else req.lang_id in
      let r =
        transcript_req hmac fetched attempts ends req.room_token req.nc_session_id lang
          (or_true req.enable) app in
      (answer_status r.0, r.1)

unfoldable pub handle_leave_call : Option LeaveCallRequest → Application → ℕ × Application
handle_leave_call none app = (status_bad_request, app)
handle_leave_call (some req) app = (status_ok, leave_call req.room_token app)

abbrev pub error_status : {E : Type 0} → Option E → ℕ
error_status none = status_ok
error_status (some e) = status_internal_server_error

-- The end of `SetCallLanguage`, by whether the language is refused at once.
unfoldable pub set_unless :
    Bool → (String → ModelDirectory) → RoomLanguageSetRequest → Application → ℕ × Application
set_unless true at req app = (status_bad_request, app)
set_unless false at req app =
    let r = set_call_language at req.room_token req.lang_id app in (error_status r.1, r.0)

unfoldable pub handle_set_call_language :
    (String → ModelDirectory) → Option RoomLanguageSetRequest → Application → ℕ × Application
unfolding set_unless
handle_set_call_language at none app = (status_bad_request, app)
handle_set_call_language at (some req) app =
    set_unless (req.lang_id == "" || not (has req.lang_id vosk_supported_language_map)) at req app

unfoldable pub handle_set_target_language :
    ℕ → Fetch → Option TargetLanguageSetRequest → Application → ℕ × Application
handle_set_target_language now f none app = (status_bad_request, app)
handle_set_target_language now f (some req) app =
    let r = set_target_language now f req.room_token req.nc_session_id req.lang_id app in
    (error_status r.1, r.0)
