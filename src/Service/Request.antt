-- ===== src/Service/Request.antt =====
-- A request for transcripts (`TranscriptReq` of internal/service/service.go), run without another
-- request in between.
use go_live_transcription.Prelude.{
  ℕ, zero, suc, String, Bool, true, false, Option, none, some, ◌∷◌, if◌then◌else◌,
}
use go_live_transcription.Constants.{max_connect_tries}
use go_live_transcription.GoMap.{lookup, insert, delete}
use go_live_transcription.Signaling.Messages.{
  HpbSettings, SigConnectResult, success, failure, retry, no_reconnect,
}
use go_live_transcription.Signaling.Client.{SpreedClient, new_spreed_client}
use go_live_transcription.Signaling.Targets.{add_target, remove_target}
use go_live_transcription.Signaling.Connect.{Frames, ConnectError, Connected, connect}
use go_live_transcription.Translation.Meta.{new_meta_translator}
use go_live_transcription.Vosk.Manager.{new_transcriber_manager}
use go_live_transcription.Service.Application.{Application, RoomState, close_room}

-- How a request ends: it is done; it waits five seconds for a room that is being closed and is made
-- again; or it fails.
pub data Answer : Type 0 where
  done deferred settings_unavailable : Answer
  connection_failed : Option ConnectError → Answer
  tries_failed : Option ConnectError → Answer

-- The configuration that a new client takes, with the URL of the signaling server as it is dialed.
pub record Endpoints : Type 0 where
  pub secret : String
  pub ws_url : String
  pub backend_url : String

-- What an attempt to connect meets: whether the dial succeeds, the frames, and the nonce.
pub record Attempt : Type 0 where
  pub dialed : Bool
  pub frames : Frames
  pub nonce : String

-- A request for a room that exists.
unfoldable pub request_in_room :
    Bool → String → String → RoomState → Application → Answer × Application
request_in_room enable token nc rs app =
    if rs.client.defunct then (if enable then (deferred, app) else (done, app)) else (
      done,
      record app {
        rooms =
            insert token
              (record rs {
                client = if enable then add_target nc rs.client else remove_target nc rs.client;
              })
              app.rooms;
      },
    )

abbrev pub new_room : Endpoints → HpbSettings → String → String → RoomState
new_room ends settings token lang = record {
  client = new_spreed_client token settings lang ends.secret ends.ws_url ends.backend_url;
  transcriber = new_transcriber_manager lang 16000;
  meta = new_meta_translator token lang;
  running = true;
}

-- The room of a client that has not connected is closed and taken from the map.
abbrev pub give_up : String → RoomState → Application → Application
give_up token rs app = record app {
  rooms = delete token app.rooms;
  ended = record (close_room rs) { running = false } ∷ app.ended;
}

abbrev pub with_client : SpreedClient → RoomState → RoomState
with_client c rs = record rs { client = c }

-- A round of the loop of attempts, from what `Connect` gives and what the rounds behind it give.
unfoldable pub connect_round :
    SigConnectResult
    → Connected
    → String
    → String
    → RoomState
    → Application
    → Answer × Application
    → Answer × Application
connect_round success r token nc rs app rest =
    (done, record app { rooms = insert token (with_client (add_target nc r.client) rs) app.rooms })
connect_round failure r token nc rs app rest =
    (connection_failed r.error, give_up token (with_client r.client rs) app)
connect_round retry r token nc rs app rest = rest

module _ (hmac : String → String → String) where
  -- The loop over the attempts, undisturbed: nothing else happens to the room between two attempts or
  -- while one waits for the server. Service/Overlap has each attempt as a step of its own, between
  -- which other requests, callbacks and the client may run.
  unfoldable pub connect_loop :
      ℕ
      → (ℕ → Attempt)
      → Option ConnectError
      → String
      → String
      → RoomState
      → Application
      → Answer × Application
  unfolding connect_round
  connect_loop zero attempts last token nc rs app =
      (tries_failed last, record app { rooms = insert token rs app.rooms })
  connect_loop (suc tries) attempts last token nc rs app =
      let a = attempts tries in
      let r = connect hmac a.nonce a.dialed a.frames no_reconnect rs.client in
      let rest = connect_loop tries attempts r.error token nc (with_client r.client rs) app in
      connect_round r.result r token nc rs app rest

  -- A new call, with the settings of the signaling server if they are to be had.
  unfoldable pub start_call :
      Option HpbSettings
      → (ℕ → Attempt)
      → Endpoints
      → String
      → String
      → String
      → Application
      → Answer × Application
  unfolding connect_loop
  start_call none attempts ends token nc lang app = (settings_unavailable, app)
  start_call (some settings) attempts ends token nc lang app =
      let rs = new_room ends settings token lang in
      connect_loop max_connect_tries attempts none token nc rs
        (record app { hpb_settings = some settings; rooms = insert token rs app.rooms })

  abbrev pub settings_or : Option HpbSettings → Option HpbSettings → Option HpbSettings
  settings_or (some settings) fetched = some settings
  settings_or none fetched = fetched

  unfoldable pub request_found :
      Option RoomState
      → Option HpbSettings
      → (ℕ → Attempt)
      → Endpoints
      → String
      → String
      → String
      → Bool
      → Application
      → Answer × Application
  unfolding start_call request_in_room
  request_found (some rs) fetched attempts ends token nc lang enable app =
      request_in_room enable token nc rs app
  request_found none fetched attempts ends token nc lang enable app =
      if enable
      then start_call (settings_or app.hpb_settings fetched) attempts ends token nc lang app
      else (done, app)

  -- `fetched` is what `fetchHPBSettings` gives, none where it fails.
  unfoldable pub transcript_req :
      Option HpbSettings
      → (ℕ → Attempt)
      → Endpoints
      → String
      → String
      → String
      → Bool
      → Application
      → Answer × Application
  unfolding request_found
  transcript_req fetched attempts ends token nc lang enable app =
      request_found (lookup token app.rooms) fetched attempts ends token nc lang enable app
