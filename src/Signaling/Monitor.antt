-- ===== src/Signaling/Monitor.antt =====
-- The monitor goroutine (internal/signaling/client.go): it reads messages until the client is
-- closed or its context cancelled.
use go_live_transcription.Prelude.{◌==◌, Bool, true, false, List, [], ◌∷◌, if◌then◌else◌}
use go_live_transcription.Signaling.Messages.{SignalingMessage}
use go_live_transcription.Signaling.Client.{SpreedClient, close}
use go_live_transcription.Signaling.Offers.{PeerSetup, handle_message}
use go_live_transcription.Signaling.Events.{handle_event}
use go_live_transcription.Signaling.Connect.{error_code}

-- What `receiveMessage` returns, with what the WebRTC stack would answer while it is handled.
pub data Received : Type 0 where
  read_error : Received
  message : PeerSetup → SignalingMessage → Received

-- The `switch`: the client, and whether the monitor returns.
unfoldable pub dispatch : PeerSetup → SignalingMessage → SpreedClient → SpreedClient × Bool
dispatch setup msg c =
    if msg.type == "error"
    then (if error_code msg.error == "processing_failed" then (c, false) else (close c, true))
    else (if msg.type == "event"
        then (handle_event msg.event c, false)
        else (if msg.type == "message"
            then (handle_message setup msg.message c, false)
            else (if msg.type == "bye" then (close c, true) else (c, false))))

-- What follows the read. Behind a message nothing is tested again, so it is handled in whatever state
-- the client is by then; behind an error the context is looked at, which is cancelled where `cancel`
-- is nil.
unfoldable pub handle_received : Received → SpreedClient → SpreedClient × Bool
unfolding dispatch
handle_received read_error c = if c.cancel then (close c, true) else (c, true)
handle_received (message setup msg) c = dispatch setup msg c

-- A read without a connection fails.
abbrev pub receive : Bool → Received → Received
receive true r = r
receive false r = read_error

-- One round in which nothing falls between the test of the context, the read and the rest.
unfoldable pub monitor_round : Received → SpreedClient → SpreedClient × Bool
unfolding handle_received
monitor_round r c = if c.cancel then handle_received (receive c.conn r) c else (c, true)

-- The whole loop, over what is received, undisturbed.
unfoldable pub monitor : List Received → SpreedClient → SpreedClient × Bool
monitor [] c = (c, false)
monitor (r ∷ rs) c =
    let (d, returned) = monitor_round r c in
    elim returned [ true ↦ (d, true) | false ↦ monitor rs d ]
