-- ===== src/Service/Startup.antt =====
-- The start of the app (`NewApplication` and `fetchHPBSettings` of internal/service/service.go).
use go_live_transcription.Prelude.{Option, none, [], not, ◌&&◌, if◌then◌else◌, Result, ok, err}
use go_live_transcription.AppApi.Base64.{Bytes, is_nil}
use go_live_transcription.AppApi.Auth.{Config}
use go_live_transcription.AppApi.Client.{Http, OcsError, codes, ocs_get}
use go_live_transcription.Signaling.Messages.{HpbSettings}
use go_live_transcription.Vosk.Models.{new_model_manager}
use go_live_transcription.Service.Application.{Application}

-- The settings in the data of a response, if they parse.
unfoldable pub parse_settings :
    (Bytes → Option HpbSettings) → Result OcsError Bytes → Option HpbSettings
parse_settings parse (ok value) = parse value
parse_settings parse (err e) = none

unfoldable pub fetch_hpb_settings :
    Config → Http → (Bytes → Option HpbSettings) → Option HpbSettings
unfolding parse_settings
fetch_hpb_settings cfg http parse =
    parse_settings parse
      (ocs_get cfg http (codes "/ocs/v2.php/apps/spreed/api/v3/signaling/settings")
        (codes "admin")).result

-- The settings are fetched at once where the signaling server is configured; an error leaves them to
-- the first call.
unfoldable pub new_application : Config → Http → (Bytes → Option HpbSettings) → Application
unfolding fetch_hpb_settings
new_application cfg http parse = record {
  hpb_settings =
      if not (is_nil cfg.hpb_url) && not (is_nil cfg.internal_secret)
      then fetch_hpb_settings cfg http parse
      else none;
  rooms = [];
  models = new_model_manager;
  ended = [];
}
