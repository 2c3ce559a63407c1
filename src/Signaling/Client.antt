-- ===== src/Signaling/Client.antt =====
-- The client's state, its outgoing messages, its deferred close timer and its close
-- (internal/signaling/client.go). Locks are held for whole operations, so an operation is a
-- function of the state. What leaves the process is recorded in the last five fields.
use go_live_transcription.Prelude.{
  ℕ, ◌+◌, ◌%◌, ◌^◌, String, Bool, true, false, not, ◌&&◌, Option, none, some, List, [], ◌∷◌, ◌++◌,
  if◌then◌else◌, nat_eq, keep_if,
}
use go_live_transcription.Prelude.Int.{ℤ}
use go_live_transcription.GoMap.{GoMap, GoSet, is_empty, values}
use go_live_transcription.Signaling.Messages.{SignalingMessage, HpbSettings, typed}

pub record Transcript : Type 0 where
  pub final : Bool
  pub lang_id : String
  pub message : String
  pub speaker_session_id : String

pub record PcmAudio : Type 0 where
  pub session_id : String
  pub samples : List ℤ
  pub sample_rate : ℕ

-- `conn` says that the pointer is not nil, `cancel` that the monitor's cancel function is not nil.
-- A peer connection is a number that its creation gives it, and so is a timer.
pub record SpreedClient : Type 0 where
  pub room_token : String
  pub room_lang_id : String
  pub secret : String
  pub ws_url : String
  pub backend_url : String
  pub hpb_settings : HpbSettings
  pub conn : Bool
  pub msg_id : ℕ  -- the 64-bit pattern of the int64
  pub session_id : String
  pub resume_id : String
  pub defunct : Bool
  pub peer_conns : GoMap ℕ
  pub targets : GoSet
  pub nc_sid_map : GoMap String
  pub nc_sid_wait_stash : GoSet
  pub pcm_audio_ch : List PcmAudio
  pub deferred_close_timer : Option ℕ
  pub cancel : Bool
  -- what the client has done to its surroundings
  pub sent : List SignalingMessage  -- handed to `WriteMessage`
  pub closed_peers : List ℕ  -- closed peer connections
  pub pending_timers : List ℕ  -- timers that will fire
  pub next_timer : ℕ
  pub callbacks : ℕ  -- goroutines started on `leaveCallCb`

-- `NewSpreedClient`; the URLs come from the configuration.
unfoldable pub new_spreed_client :
    String → HpbSettings → String → String → String → String → SpreedClient
new_spreed_client room_token hpb_settings room_lang_id secret ws_url backend_url = record {
  room_token = room_token;
  room_lang_id = room_lang_id;
  secret = secret;
  ws_url = ws_url;
  backend_url = backend_url;
  hpb_settings = hpb_settings;
  conn = false;
  msg_id = 0;
  session_id = "";
  resume_id = "";
  defunct = false;
  peer_conns = [];
  targets = [];
  nc_sid_map = [];
  nc_sid_wait_stash = [];
  pcm_audio_ch = [];
  deferred_close_timer = none;
  cancel = false;
  sent = [];
  closed_peers = [];
  pending_timers = [];
  next_timer = 0;
  callbacks = 0;
}

unfoldable pub set_room_lang_id : String → SpreedClient → SpreedClient
set_room_lang_id lang_id c = record c { room_lang_id = lang_id }

-- `sendMessageLocked`, and `SendMessage`, which only adds the lock.
unfoldable pub send_message : SignalingMessage → SpreedClient → SpreedClient
send_message msg c =
    if c.conn
    then (let id = (c.msg_id + 1) % 2 ^ 64 in
        record c { msg_id = id; sent = c.sent ++ record msg { id = some id } ∷ [] })
    else c

-- `Timer.Stop`: a timer that has fired is no longer among the pending ones.
abbrev pub stop_timer : ℕ → List ℕ → List ℕ
stop_timer t = keep_if (λ u. not (nat_eq u t))

unfoldable pub cancel_deferred_close : SpreedClient → SpreedClient
cancel_deferred_close c = elim c.deferred_close_timer [
  | none ↦ c
  | some t ↦ record c {
    pending_timers = stop_timer t c.pending_timers;
    deferred_close_timer = none;
  }
]

unfoldable pub start_deferred_close : SpreedClient → SpreedClient
unfolding cancel_deferred_close
start_deferred_close c =
    let d = cancel_deferred_close c in
    record d {
      deferred_close_timer = some d.next_timer;
      pending_timers = d.next_timer ∷ d.pending_timers;
      next_timer = d.next_timer + 1;
    }

-- `if len(sc.targets) == 0 { sc.startDeferredClose() }`
unfoldable pub start_if_no_target : SpreedClient → SpreedClient
unfolding start_deferred_close
start_if_no_target c = if is_empty c.targets then start_deferred_close c else c

abbrev pub bye_message : SignalingMessage
bye_message = record (typed "bye") { bye = some (record {}) }

-- The part of `closeInternal` below its first `if`.
unfoldable pub close_live : SpreedClient → SpreedClient
unfolding cancel_deferred_close send_message
close_live c =
    let d = cancel_deferred_close (record c { cancel = false }) in
    let e = send_message bye_message d in
    record e {
      closed_peers = e.closed_peers ++ values e.peer_conns;
      peer_conns = [];
      conn = false;
      defunct = true;
      callbacks = e.callbacks + 1;
    }

-- `closeInternal`, and `Close`, which only adds the lock.
unfoldable pub close : SpreedClient → SpreedClient
unfolding close_live
close c = if c.defunct then c else close_live c

-- The callback of the deferred close timer: what it reads, and the whole of it.
unfoldable pub should_leave : SpreedClient → Bool
should_leave c = not c.defunct && is_empty c.targets

unfoldable pub fire_deferred_close : ℕ → SpreedClient → SpreedClient
unfolding should_leave close
fire_deferred_close t c =
    let d = record c { pending_timers = stop_timer t c.pending_timers } in
    if should_leave d then close d else d
