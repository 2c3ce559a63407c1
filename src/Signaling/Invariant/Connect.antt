-- ===== src/Signaling/Invariant/Connect.antt =====
-- Connecting a new client gives one that satisfies the invariant, whatever the network does.
use go_live_transcription.Prelude.{
  ℕ, zero, suc, String, ◌≡◌, Bool, true, false, Option, none, some, [], ◌∷◌, arith,
}
use go_live_transcription.Signaling.Messages.{SignalingMessage, no_reconnect, HelloMessage}
use go_live_transcription.Signaling.Client.{SpreedClient, send_message}
use go_live_transcription.Signaling.Connect.{
  Frames, Connected, send_hello, send_in_call, send_join, greeted, handshake, finish_connect,
  complete, open_session, connect, in_call_message, join_message,
}
use go_live_transcription.Signaling.Invariant.Client.{Inv, send-Inv, start_if_no_target-Inv}

-- A client that is live satisfies the invariant's last part for nothing.
abbrev LiveInv : String → SpreedClient → Type 0
LiveInv nc c = (c.defunct ≡ false) × Inv nc c

module _ (nc : String) where
  greeted-Inv :
      (h : Option HelloMessage) (c : SpreedClient) → LiveInv nc c → LiveInv nc (greeted h c)
  unfolding greeted
  greeted-Inv none c v = v
  greeted-Inv (some h) c v = ground arith

  handshake-Inv :
      (n : ℕ) (fs : Frames) (c : SpreedClient) → LiveInv nc c → LiveInv nc (handshake n fs c).client
  unfolding handshake
  handshake-Inv zero fs c v = v
  handshake-Inv (suc n) [] c v = v
  handshake-Inv (suc n) (none ∷ fs) c v = v
  handshake-Inv (suc n) (some msg ∷ fs) c v =
      ground (arith, v, handshake-Inv n fs c v, greeted-Inv msg.hello c v)

  finish_connect-Inv : (c : SpreedClient) → LiveInv nc c → Inv nc (finish_connect c)
  unfolding finish_connect send_in_call send_join
  finish_connect-Inv c v =
      let d : SpreedClient = record c { defunct = false; cancel = true } in
      let w : Inv nc d = ground arith in
      let e = send_in_call d in
      let u : Inv nc e = send-Inv nc d w in_call_message in
      let f = send_join e in
      let t : Inv nc f = send-Inv nc e u (join_message e.room_token e.session_id) in
      start_if_no_target-Inv nc f t

  complete-Inv : (r : Connected) → LiveInv nc r.client → Inv nc (complete r).client
  unfolding complete
  complete-Inv r v = ground (arith, v, finish_connect-Inv r.client v)

  send-LiveInv :
      (m : SignalingMessage) (c : SpreedClient) → LiveInv nc c → LiveInv nc (send_message m c)
  unfolding send_message
  send-LiveInv m c v = (ground arith, unfold send_message in send-Inv nc c v.1 m)

  module _ (hmac : String → String → String) (nonce : String) where
    send_hello-Inv : (c : SpreedClient) → LiveInv nc c → LiveInv nc (send_hello hmac nonce c)
    unfolding send_hello
    send_hello-Inv c v = send-LiveInv _ c v

    open_session-Inv :
        (fs : Frames) (c : SpreedClient)
        → LiveInv nc c
        → Inv nc (open_session hmac nonce fs no_reconnect c).client
    unfolding open_session
    open_session-Inv fs c w = complete-Inv _ (handshake-Inv 10 fs _ (send_hello-Inv c w))

    -- The first connection of a client that is not closed.
    pub connect-Inv :
        (dialed : Bool) (fs : Frames) (c : SpreedClient)
        → c.defunct ≡ false
        → Inv nc c
        → Inv nc (connect hmac nonce dialed fs no_reconnect c).client
    unfolding connect
    connect-Inv dialed fs c live v =
        let d : SpreedClient = record c { conn = true } in
        let w : LiveInv nc d = ground arith in ground (arith, v, open_session-Inv fs d w)
