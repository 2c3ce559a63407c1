-- ===== src/Signaling/LateOffer.antt =====
-- An offer that is handled after the client was closed (`monitor` and `handleOffer` of
-- internal/signaling/client.go).
use go_live_transcription.Prelude.{
  ℕ, String, ◌==◌, eq_refl, true, false, ◌≡◌, none, some, [], arith, if◌then◌else◌,
}
use go_live_transcription.GoMap.{lookup}
use go_live_transcription.GoMap.Laws.{lookup-insert}
use go_live_transcription.Signaling.Messages.{SignalingMessage, typed, typed_payload}
use go_live_transcription.Signaling.Client.{SpreedClient, close, send_message}
use go_live_transcription.Signaling.Offers.{
  PeerSetup, drop_peer, establish, negotiate, accept_offer, handle_offer, handle_payload,
  handle_message, send_offer_answer,
}
use go_live_transcription.Signaling.Monitor.{message, dispatch, handle_received}
use go_live_transcription.Signaling.LostPeer.{elem, Unknown, close-Unknown}

-- An offer of a speaker.
abbrev pub offer_message : String → String → String → String → SignalingMessage
offer_message speaker sid from sdp = record (typed "message") {
  message = some (record {
    recipient = none;
    sender = some (record { type = "session"; session_id = speaker });
    body = some (record (typed_payload "offer") {
      sid = sid;
      from = from;
      payload = some (record { nick = ""; type = "offer"; sdp = sdp; candidate = none });
    });
  });
}

-- The client is closed and holds the connection, which it has not closed.
pub record HoldsOpen (pc : ℕ) (speaker : String) (c : SpreedClient) : Type 0 where
  pub dead : c.defunct ≡ true
  pub held : lookup speaker c.peer_conns ≡ some pc
  pub unclosed : elem pc c.closed_peers ≡ false
  pub for_good : close c ≡ c

-- What closing a live client leaves, as far as an offer meets it.
record Emptied (c : SpreedClient) : Type 0 where
  dead : c.defunct ≡ true
  unplugged : c.conn ≡ false
  no_peers : c.peer_conns ≡ []

close-Emptied : (c : SpreedClient) → c.defunct ≡ false → Emptied (close c)
unfolding close
close-Emptied c live = ground (arith, live)

establish-HoldsOpen :
    (pc : ℕ) (sdp speaker sid to : String) (c : SpreedClient)
    → Emptied c
    → Unknown pc c
    → HoldsOpen pc speaker (establish (some pc) (some sdp) speaker sid to (drop_peer speaker c))
unfolding close drop_peer lookup establish send_offer_answer send_message
establish-HoldsOpen pc sdp speaker sid to c v new =
    ground (arith, v, new, lookup-insert speaker speaker pc [], eq_refl speaker)

accept-HoldsOpen :
    (s : PeerSetup) (pc : ℕ) (sdp speaker sid from : String) (c : SpreedClient)
    → Emptied c
    → s.new_peer ≡ some pc
    → negotiate s ≡ some sdp
    → Unknown pc c
    → HoldsOpen pc speaker (accept_offer s speaker sid from c)
unfolding accept_offer
accept-HoldsOpen s pc sdp speaker sid from c v made agreed new =
    rw (agreed, made, accept_offer)
      (establish-HoldsOpen pc sdp speaker sid (if from == "" then speaker else from) c v new)

-- The monitor does not test the context again once it has read a message, and `handleOffer` does not
-- test whether the client is closed. So when an offer is read from a live client, the client is closed
-- and the offer is handled then, the new peer connection is stored in the closed client, and nothing
-- closes it: another `Close` does nothing.
pub late_offer_leaks :
    (s : PeerSetup) (pc : ℕ) (sdp speaker sid from offer : String) (c : SpreedClient)
    → c.defunct ≡ false
    → s.new_peer ≡ some pc
    → negotiate s ≡ some sdp
    → Unknown pc c
    → HoldsOpen pc speaker
        (handle_received (message s (offer_message speaker sid from offer)) (close c)).0
unfolding handle_received dispatch handle_message handle_payload handle_offer
late_offer_leaks s pc sdp speaker sid from offer c live made agreed new =
    accept-HoldsOpen s pc sdp speaker sid from (close c) (close-Emptied c live) made agreed
      (close-Unknown pc c new)
