-- ===== src/Signaling/Offers.antt =====
-- Peer connections (internal/signaling/client.go): offers, candidates and the audio that they bring.
-- The WebRTC stack, the Opus decoder and the network are not in the source: what they answer is an
-- argument of the operation that calls them.
use go_live_transcription.Prelude.{
  ℕ, ◌%◌, ◌^◌, String, ◌==◌, Bool, Option, none, some, List, [], ◌∷◌, ◌++◌, length, if◌then◌else◌,
  ltb, is_some,
}
use go_live_transcription.Prelude.Int.{ℤ}
use go_live_transcription.GoMap.{lookup, insert, delete}
use go_live_transcription.Signaling.Messages.{
  SignalingMessage, DataMessage, MessagePayload, Sender, typed, typed_payload,
}
use go_live_transcription.Signaling.Client.{SpreedClient, send_message}

-- A message to one session, with its payload.
abbrev pub to_session : String → MessagePayload → SignalingMessage
to_session sid payload = record (typed "message") {
  message = some (record {
    recipient = some (record { type = "session"; session_id = sid });
    sender = none;
    body = some payload;
  });
}

unfoldable pub send_offer_request : String → SpreedClient → SpreedClient
send_offer_request publisher =
    send_message
      (to_session publisher (record (typed_payload "requestoffer") { room_type = "video" }))

unfoldable pub send_offer_answer : String → String → String → SpreedClient → SpreedClient
send_offer_answer publisher offer_sid sdp = send_message (
    to_session publisher (record (typed_payload "answer") {
      to = publisher;
      room_type = "video";
      sid = offer_sid;
      payload =
          some
            (record { nick = "live_transcription"; type = "answer"; sdp = sdp; candidate = none });
    }))

unfoldable pub send_candidate : String → String → String → SpreedClient → SpreedClient
send_candidate sender offer_sid candidate = send_message (
    to_session sender (record (typed_payload "candidate") {
      to = sender;
      sid = offer_sid;
      room_type = "video";
      payload = some (record {
        nick = "";
        type = "";
        sdp = "";
        candidate = some (record { candidate = candidate; sdp_m_line_index = 0; sdp_mid = "0" });
      });
    }))

-- What the WebRTC stack answers while an offer is handled: the new peer connection, whether the
-- audio transceiver was added and the remote description taken, the answer's SDP, and whether the
-- local description was taken.
pub record PeerSetup : Type 0 where
  pub new_peer : Option ℕ
  pub transceiver_added : Bool
  pub remote_set : Bool
  pub answer : Option String
  pub local_set : Bool

abbrev pub close_peer : ℕ → SpreedClient → SpreedClient
close_peer pc c = record c { closed_peers = c.closed_peers ++ pc ∷ [] }

-- Closes and forgets the peer connection of a session, if there is one.
unfoldable pub drop_peer : String → SpreedClient → SpreedClient
drop_peer sid c = elim (lookup sid c.peer_conns) [
  | none ↦ c
  | some pc ↦ record c {
    closed_peers = c.closed_peers ++ pc ∷ [];
    peer_conns = delete sid c.peer_conns;
  }
]

-- The calls on a fresh peer connection: the answer's SDP, or `none` where one of them fails.
unfoldable pub negotiate : PeerSetup → Option String
negotiate s =
    if s.transceiver_added
    then (if s.remote_set
        then elim s.answer [ none ↦ none | some sdp ↦ if s.local_set then some sdp else none ]
        else none)
    else none

-- The peer connection is stored and the answer sent, or it is closed.
unfoldable pub establish :
    Option ℕ → Option String → String → String → String → SpreedClient → SpreedClient
establish none answer speaker offer_sid to c = c
establish (some pc) none speaker offer_sid to c = close_peer pc c
establish (some pc) (some sdp) speaker offer_sid to c =
    send_offer_answer to offer_sid sdp (record c { peer_conns = insert speaker pc c.peer_conns })

-- `handleOffer` behind its first test, undisturbed: speaker, offer and the `From` of the message. The
-- source takes the lock for `drop_peer` and again where `establish` stores the new connection, and
-- tests nothing in between; Signaling/Calls has each of the two as a call of its own.
unfoldable pub accept_offer : PeerSetup → String → String → String → SpreedClient → SpreedClient
unfolding establish
accept_offer s speaker offer_sid from c =
    establish s.new_peer (negotiate s) speaker offer_sid (if from == "" then speaker else from)
      (drop_peer speaker c)

unfoldable pub handle_offer :
    PeerSetup → Option Sender → MessagePayload → SpreedClient → SpreedClient
handle_offer s none body c = c
handle_offer s (some sender) body c =
    if is_some body.payload then accept_offer s sender.session_id body.sid body.from c else c

-- `handleCandidate`: the candidate that goes to a peer connection, with its line index as `uint16`.
unfoldable pub handle_candidate :
    Option Sender → MessagePayload → SpreedClient → Option (ℕ × String × String × ℕ)
handle_candidate none body c = none
handle_candidate (some sender) body c = elim body.payload [
  | none ↦ none
  | some p ↦ elim p.candidate [
    | none ↦ none
    | some ice ↦ elim (lookup sender.session_id c.peer_conns) [
      | none ↦ none
      | some pc ↦ some (pc, ice.candidate, ice.sdp_mid, ice.sdp_m_line_index % 2 ^ 16)
    ]
  ]
]

-- The `switch` of `handleMessage`. A candidate goes to a peer connection and changes nothing here.
unfoldable pub handle_payload :
    PeerSetup → Option Sender → Option MessagePayload → SpreedClient → SpreedClient
handle_payload s sender none c = c
handle_payload s sender (some body) c =
    if body.type == "offer" then handle_offer s sender body c else c

unfoldable pub handle_message : PeerSetup → Option DataMessage → SpreedClient → SpreedClient
handle_message s none c = c
handle_message s (some m) c = handle_payload s m.sender m.body c

pub data PeerState : Type 0 where
  failed closed other : PeerState

-- The callback `OnConnectionStateChange` of a peer connection that was made for `speaker`.
unfoldable pub peer_state_changed : String → PeerState → SpreedClient → SpreedClient
peer_state_changed speaker other c = c
peer_state_changed speaker _ c = record c { peer_conns = delete speaker c.peer_conns }

-- The callback `OnICECandidate`; the last candidate is nil.
unfoldable pub ice_candidate : String → String → Option String → SpreedClient → SpreedClient
ice_candidate speaker offer_sid none c = c
ice_candidate speaker offer_sid (some candidate) c = send_candidate speaker offer_sid candidate c

-- One round of `readAudioTrack`: `decoded` is what the track's packet decodes to, if it does, and
-- is dropped where it is empty or the channel full.
abbrev pub pcm_audio_capacity : ℕ
pcm_audio_capacity = 100

unfoldable pub push_audio : String → Option (List ℤ) → SpreedClient → SpreedClient
push_audio sid none c = c
push_audio sid (some []) c = c
push_audio sid (some (s ∷ samples)) c =
    if ltb (length c.pcm_audio_ch) pcm_audio_capacity
    then record c {
      pcm_audio_ch =
          c.pcm_audio_ch
          ++ record { session_id = sid; samples = s ∷ samples; sample_rate = 48000 } ∷ [];
    }
    else c
