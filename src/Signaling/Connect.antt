-- ===== src/Signaling/Connect.antt =====
-- Connecting to the signaling server (internal/signaling/client.go). The socket is not in the
-- source: whether the dial succeeds and what `ReadMessage` gives are arguments. A frame is `none`
-- where the read fails, times out or does not parse; so is the end of the list of frames. The
-- nonce and the HMAC are arguments too.
use go_live_transcription.Prelude.{
  ℕ, zero, suc, String, ◌==◌, Bool, true, false, not, ◌&&◌, Option, none, some, List, [], ◌∷◌,
  if◌then◌else◌,
}
use go_live_transcription.Signaling.Messages.{
  SignalingMessage, SigConnectResult, success, failure, retry, ReconnectMethod, short_resume,
  full_reconnect, ErrorMessage, HelloMessage, call_flag_in_call, typed,
}
use go_live_transcription.Signaling.Client.{SpreedClient, send_message, start_if_no_target, close}

abbrev pub Frames : Type 0
Frames = List (Option SignalingMessage)

pub data ConnectError : Type 0 where
  dial_failed rate_limited no_message duplicate_session room_join_failed received_bye no_hello :
      ConnectError
  signaling_error : String → ConnectError

-- What `Connect` returns, and the client after it.
pub record Connected : Type 0 where
  pub result : SigConnectResult
  pub error : Option ConnectError
  pub client : SpreedClient

abbrev pub hello_request : HelloMessage → SignalingMessage
hello_request h = record (typed "hello") { hello = some h }

-- The first hello, with the nonce and its HMAC under the client's secret.
abbrev pub internal_hello : (String → String → String) → String → SpreedClient → SignalingMessage
internal_hello hmac nonce c = hello_request (record {
  version = "2.0";
  resume_id = "";
  session_id = "";
  auth = some (record {
    type = "internal";
    params = some (record { random = nonce; token = hmac c.secret nonce; backend = c.backend_url });
  });
})

-- `sendHello`
unfoldable pub send_hello : (String → String → String) → String → SpreedClient → SpreedClient
send_hello hmac nonce c = send_message (internal_hello hmac nonce c) c

abbrev pub in_call_message : SignalingMessage
in_call_message = record (typed "internal") {
  internal =
      some (record { type = "incall"; in_call = some (record { in_call = call_flag_in_call }) });
}

unfoldable pub send_in_call : SpreedClient → SpreedClient
send_in_call = send_message in_call_message

abbrev pub join_message : String → String → SignalingMessage
join_message room sid = record (typed "room") {
  room = some (record { room_id = room; session_id = sid });
}

unfoldable pub send_join : SpreedClient → SpreedClient
send_join c = send_message (join_message c.room_token c.session_id) c

-- `code := ""; if msg.Error != nil { code = msg.Error.Code }`
abbrev pub error_code : Option ErrorMessage → String
error_code none = ""
error_code (some e) = e.code

-- What the handshake makes of one message: go on, succeed, or return.
pub data Reaction : Type 0 where
  skip greet : Reaction
  give_up : SigConnectResult → ConnectError → Reaction

unfoldable pub error_reaction : String → Reaction
error_reaction code =
    if code == "duplicate_session"
    then give_up failure duplicate_session
    else (if code == "room_join_failed"
        then give_up retry room_join_failed
        else give_up failure (signaling_error code))

unfoldable pub reaction : SignalingMessage → Reaction
unfolding error_reaction
reaction msg =
    if msg.type == "error"
    then error_reaction (error_code msg.error)
    else (if msg.type == "bye"
        then give_up failure received_bye
        else (if msg.type == "hello" then greet else skip))

-- The hello's identifiers, where it has a body.
unfoldable pub greeted : Option HelloMessage → SpreedClient → SpreedClient
greeted none c = c
greeted (some h) c = record c { session_id = h.session_id; resume_id = h.resume_id }

-- The handshake loop, with the rounds that are left: the client once greeted, or the return.
unfoldable pub handshake : ℕ → Frames → SpreedClient → Connected
handshake zero frames c = record { result = failure; error = some no_hello; client = c }
handshake (suc n) [] c = record { result = failure; error = some no_message; client = c }
handshake (suc n) (none ∷ fs) c = record { result = failure; error = some no_message; client = c }
handshake (suc n) (some msg ∷ fs) c =
    let rest = handshake n fs c in
    elim (reaction msg) [
      | skip ↦ rest
      | greet ↦ record { result = success; error = none; client = greeted msg.hello c }
      | give_up r e ↦ record { result = r; error = some e; client = c }
    ]

-- The code at the label `connected`. `cancel` stands for the monitor, which is started here.
unfoldable pub finish_connect : SpreedClient → SpreedClient
unfolding send_in_call send_join
finish_connect c =
    start_if_no_target (send_join (send_in_call (record c { defunct = false; cancel = true })))

-- The loop of `resumeConnection`: the result, the error, and the client.
unfoldable pub resume_loop : ℕ → Frames → SpreedClient → Bool × Option ConnectError × SpreedClient
resume_loop zero frames c = (false, none, c)
resume_loop (suc n) [] c = (false, some no_message, c)
resume_loop (suc n) (none ∷ fs) c = (false, some no_message, c)
resume_loop (suc n) (some msg ∷ fs) c =
    let rest = resume_loop n fs c in
    if msg.type == "error"
    then (if error_code msg.error == "too_many_requests"
        then (false, some rate_limited, c)
        else (false, none, c))
    else (if msg.type == "hello"
        then elim msg.hello [
          | none ↦ rest
          | some h ↦ (true, none, record c { session_id = h.session_id })
        ]
        else rest)

unfoldable pub resume_connection : Frames → SpreedClient → Bool × Option ConnectError × SpreedClient
resume_connection frames c = resume_loop 10 frames (
    send_message
      (hello_request
        (record { version = "2.0"; resume_id = c.resume_id; session_id = ""; auth = none }))
      c)

-- What `Connect` makes of the result of `resumeConnection`.
unfoldable pub after_resume : Bool × Option ConnectError × SpreedClient → Connected
after_resume (ok, some rate_limited, c) = record {
  result = failure;
  error = some rate_limited;
  client = c;
}
after_resume (ok, some _, c) = record { result = retry; error = none; client = c }
after_resume (true, none, c) = record {
  result = success;
  error = none;
  client = send_join (send_in_call (record c { defunct = false }));
}
after_resume (false, none, c) = record { result = retry; error = none; client = c }

-- The handshake, and the code at `connected` where it succeeds.
unfoldable pub complete : Connected → Connected
complete r = elim r.result [ success ↦ record r { client = finish_connect r.client } | _ ↦ r ]

module _ (hmac : String → String → String) (nonce : String) where
  -- `Connect` once the socket is open.
  unfoldable pub open_session : Frames → ReconnectMethod → SpreedClient → Connected
  open_session frames short_resume c =
      if c.resume_id == ""
      then complete (handshake 10 frames (send_hello hmac nonce c))
      else after_resume (resume_connection frames c)
  open_session frames _ c = complete (handshake 10 frames (send_hello hmac nonce c))

  -- The second `if` of `Connect`.
  unfoldable pub reset_session : ReconnectMethod → SpreedClient → SpreedClient
  reset_session full_reconnect c = record (close c) { resume_id = ""; session_id = "" }
  reset_session _ c = c

  abbrev pub is_full : ReconnectMethod → Bool
  is_full full_reconnect = true
  is_full _ = false

  unfoldable pub connect : Bool → Frames → ReconnectMethod → SpreedClient → Connected
  unfolding reset_session
  connect dialed frames reconnect c =
      if c.conn && not (is_full reconnect)
      then record { result = success; error = none; client = c }
      else (let d = reset_session reconnect c in
          if dialed
          then open_session frames reconnect (record d { conn = true })
          else record { result = retry; error = some dial_failed; client = d })
