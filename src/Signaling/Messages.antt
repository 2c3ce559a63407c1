-- ===== src/Signaling/Messages.antt =====
-- The messages of the signaling server, internal/signaling/messages.go. A pointer is an `Option`,
-- and a text that is left out of the JSON is the empty text. `InCall` flags are the 64-bit pattern
-- of Go's `int`.
use Prim.Native.Nat.{bit_and}
use go_live_transcription.Prelude.{ℕ, String, Bool, not, Option, none, List, nat_eq}

pub record StunServer : Type 0 where
  pub urls : List String

pub record TurnServer : Type 0 where
  pub urls : List String
  pub username : String
  pub credential : String

pub record HpbSettings : Type 0 where
  pub server : String
  pub stun_servers : List StunServer
  pub turn_servers : List TurnServer

pub data SigConnectResult : Type 0 where
  success failure retry : SigConnectResult

pub data ReconnectMethod : Type 0 where
  no_reconnect short_resume full_reconnect : ReconnectMethod

abbrev pub CallFlag : Type 0
CallFlag = ℕ

abbrev pub call_flag_disconnected : CallFlag
call_flag_disconnected = 0

abbrev pub call_flag_in_call : CallFlag
call_flag_in_call = 1

abbrev pub call_flag_with_audio : CallFlag
call_flag_with_audio = 2

abbrev pub call_flag_with_video : CallFlag
call_flag_with_video = 4

abbrev pub call_flag_with_phone : CallFlag
call_flag_with_phone = 8

-- `flags&bit != 0`
unfoldable pub has_flag : ℕ → ℕ → Bool
has_flag bit flags = not (nat_eq (bit_and flags bit) 0)

pub record HelloAuthParams : Type 0 where
  pub random : String
  pub token : String
  pub backend : String

pub record HelloAuth : Type 0 where
  pub type : String
  pub params : Option HelloAuthParams

pub record HelloMessage : Type 0 where
  pub version : String
  pub resume_id : String
  pub session_id : String
  pub auth : Option HelloAuth

pub record RoomMessage : Type 0 where
  pub room_id : String
  pub session_id : String

pub record Recipient : Type 0 where
  pub type : String
  pub session_id : String

pub record Sender : Type 0 where
  pub type : String
  pub session_id : String

pub record CandidateInfo : Type 0 where
  pub candidate : String
  pub sdp_m_line_index : ℕ
  pub sdp_mid : String

pub record SdpPayload : Type 0 where
  pub nick : String
  pub type : String
  pub sdp : String
  pub candidate : Option CandidateInfo

pub record MessagePayload : Type 0 where
  pub type : String
  pub room_type : String
  pub to : String
  pub from : String
  pub sid : String
  pub payload : Option SdpPayload
  pub final : Option Bool
  pub lang_id : String
  pub message : String
  pub speaker_session_id : String

-- `Data` of the source is `body` here.
pub record DataMessage : Type 0 where
  pub recipient : Option Recipient
  pub sender : Option Sender
  pub body : Option MessagePayload

pub record InCallMessage : Type 0 where
  pub in_call : CallFlag

pub record InternalMessage : Type 0 where
  pub type : String
  pub in_call : Option InCallMessage

pub record UserUpdateEntry : Type 0 where
  pub session_id : String
  pub nextcloud_session_id : String
  pub in_call : CallFlag
  pub internal : Bool

pub record EventUpdate : Type 0 where
  pub all : Bool
  pub in_call : CallFlag
  pub users : List UserUpdateEntry

pub record EventMessage : Type 0 where
  pub target : String
  pub type : String
  pub update : Option EventUpdate

pub record ErrorMessage : Type 0 where
  pub code : String
  pub message : String
  pub details : String

pub record ByeMessage : Type 0 where

-- `id` is the number that `strconv.FormatInt` prints; `none` is the empty text.
pub record SignalingMessage : Type 0 where
  pub id : Option ℕ
  pub type : String
  pub hello : Option HelloMessage
  pub room : Option RoomMessage
  pub message : Option DataMessage
  pub internal : Option InternalMessage
  pub event : Option EventMessage
  pub error : Option ErrorMessage
  pub bye : Option ByeMessage

-- A message with a type and nothing else, from which the literals of the source are built.
abbrev pub typed : String → SignalingMessage
typed t = record {
  id = none;
  type = t;
  hello = none;
  room = none;
  message = none;
  internal = none;
  event = none;
  error = none;
  bye = none;
}

-- A payload with a type and nothing else.
abbrev pub typed_payload : String → MessagePayload
typed_payload t = record {
  type = t;
  room_type = "";
  to = "";
  from = "";
  sid = "";
  payload = none;
  final = none;
  lang_id = "";
  message = "";
  speaker_session_id = "";
}
