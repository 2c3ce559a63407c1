-- ===== src/Tests/Samples.antt =====
-- A call with two participants, as test data.
use go_live_transcription.Prelude.{String, true, false, none, some, List, [], ◌∷◌}
use go_live_transcription.Signaling.Messages.{
  HpbSettings, SignalingMessage, HelloMessage, UserUpdateEntry, typed,
}
use go_live_transcription.Signaling.Client.{SpreedClient, Transcript}
use go_live_transcription.Signaling.Offers.{PeerSetup}

abbrev pub settings : HpbSettings
settings = record { server = "hpb"; stun_servers = []; turn_servers = [] }

-- A client before its first connection.
abbrev pub fresh : SpreedClient
fresh = record {
  room_token = "room";
  room_lang_id = "en";
  secret = "s";
  ws_url = "ws";
  backend_url = "b";
  hpb_settings = settings;
  conn = false;
  msg_id = 0;
  session_id = "";
  resume_id = "";
  defunct = false;
  peer_conns = [];
  targets = [];
  nc_sid_map = [];
  nc_sid_wait_stash = [];
  pcm_audio_ch = [];
  deferred_close_timer = none;
  cancel = false;
  sent = [];
  closed_peers = [];
  pending_timers = [];
  next_timer = 0;
  callbacks = 0;
}

-- A connected client with a peer connection, two participants of whom one is a target, and a timer.
abbrev pub busy : SpreedClient
busy = record fresh {
  conn = true;
  cancel = true;
  session_id = "me";
  peer_conns = ("h1", 5) ∷ [];
  targets = ("h1", tt) ∷ ("h2", tt) ∷ [];
  nc_sid_map = ("n1", "h1") ∷ ("n2", "h2") ∷ [];
  deferred_close_timer = some 4;
  pending_timers = 4 ∷ [];
  next_timer = 5;
}

abbrev pub closed_client : SpreedClient
closed_client = record fresh { defunct = true }

abbrev pub said : Transcript
said = record { final = true; lang_id = "en"; message = "hi"; speaker_session_id = "h1" }

abbrev pub welcome : SignalingMessage
welcome = typed "welcome"

abbrev pub greeting : HelloMessage
greeting = record { version = "2.0"; resume_id = "r"; session_id = "me"; auth = none }

abbrev pub hello : SignalingMessage
hello = record (typed "hello") { hello = some greeting }

-- The server refuses the room.
abbrev pub refusal : SignalingMessage
refusal = record (typed "error") {
  error = some (record { code = "room_join_failed"; message = ""; details = "" });
}

-- A participant who is in the call with audio.
abbrev pub joining : UserUpdateEntry
joining = record { session_id = "h3"; nextcloud_session_id = "n3"; in_call = 3; internal = false }

abbrev pub update_of : List UserUpdateEntry → SignalingMessage
update_of users = record (typed "event") {
  event = some (record {
    target = "participants";
    type = "update";
    update = some (record { all = false; in_call = 0; users = users });
  });
}

-- The WebRTC stack makes peer connection 9.
abbrev pub setup : PeerSetup
setup = record {
  new_peer = some 9;
  transceiver_added = true;
  remote_set = true;
  answer = some "sdp";
  local_set = true;
}

-- An HMAC for the tests.
abbrev pub no_hmac : String → String → String
no_hmac key message = message
