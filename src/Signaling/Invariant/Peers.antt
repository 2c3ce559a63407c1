-- ===== src/Signaling/Invariant/Peers.antt =====
-- The operations on peer connections keep the client's invariant.
use go_live_transcription.Prelude.{
  ℕ, String, Option, none, some, List, [], ◌∷◌, arith, inl, inr, is_some, Bool-cases,
}
use go_live_transcription.Prelude.Int.{ℤ}
use go_live_transcription.GoMap.{lookup, insert, delete}
use go_live_transcription.Signaling.Messages.{MessagePayload, Sender, DataMessage}
use go_live_transcription.Signaling.Client.{SpreedClient}
use go_live_transcription.Signaling.Offers.{
  PeerSetup, PeerState, other, drop_peer, establish, handle_payload, negotiate, accept_offer,
  handle_offer, handle_message, peer_state_changed, ice_candidate, push_audio, send_candidate,
  send_offer_answer,
}
use go_live_transcription.Signaling.Invariant.Client.{Inv, send-Inv}

module _ (nc : String) where
  pub drop_peer-Inv : (sid : String) (c : SpreedClient) → Inv nc c → Inv nc (drop_peer sid c)
  unfolding drop_peer delete lookup
  drop_peer-Inv sid c v = ground arith

  insert_peer-Inv :
      (sid : String) (pc : ℕ) (c : SpreedClient)
      → Inv nc c
      → Inv nc (record c { peer_conns = insert sid pc c.peer_conns })
  insert_peer-Inv sid pc c v = record {
    numbered = v.numbered;
    waits = v.waits;
    one_timer = v.one_timer;
    closed = v.closed;
  }

  pub establish-Inv :
      (peer : Option ℕ) (answer : Option String) (speaker sid to : String) (c : SpreedClient)
      → Inv nc c
      → Inv nc (establish peer answer speaker sid to c)
  unfolding establish send_offer_answer
  establish-Inv none answer speaker sid to c v = v
  establish-Inv (some pc) none speaker sid to c v = ground arith
  establish-Inv (some pc) (some sdp) speaker sid to c v =
      send-Inv nc _ (insert_peer-Inv speaker pc c v) _

  handle_offer-Inv :
      (s : PeerSetup) (sender : Option Sender) (body : MessagePayload) (c : SpreedClient)
      → Inv nc c
      → Inv nc (handle_offer s sender body c)
  unfolding handle_offer accept_offer
  handle_offer-Inv s none body c v = v
  handle_offer-Inv s (some sender) body c v = elim (Bool-cases (is_some body.payload)) [
    | inr e ↦ rw (e, handle_offer) v
    | inl e ↦
        rw (e, handle_offer)
          (establish-Inv s.new_peer (negotiate s) _ _ _ _ (drop_peer-Inv sender.session_id c v))
  ]

  pub handle_message-Inv :
      (s : PeerSetup) (msg : Option DataMessage) (c : SpreedClient)
      → Inv nc c
      → Inv nc (handle_message s msg c)
  unfolding handle_message handle_payload
  handle_message-Inv s none c v = v
  handle_message-Inv s (some m) c v = payload m.body
    where
      payload : (body : Option MessagePayload) → Inv nc (handle_payload s m.sender body c)
      payload none = v
      payload (some body) = ground (arith, v, handle_offer-Inv s m.sender body c v)

  pub peer_state_changed-Inv :
      (sid : String) (p : PeerState) (c : SpreedClient)
      → Inv nc c
      → Inv nc (peer_state_changed sid p c)
  unfolding peer_state_changed delete
  peer_state_changed-Inv sid other c v = v
  peer_state_changed-Inv sid _ c v = ground arith

  pub ice_candidate-Inv :
      (sid offer : String) (k : Option String) (c : SpreedClient)
      → Inv nc c
      → Inv nc (ice_candidate sid offer k c)
  unfolding ice_candidate send_candidate
  ice_candidate-Inv sid offer none c v = v
  ice_candidate-Inv sid offer (some k) c v = send-Inv nc c v _

  pub push_audio-Inv :
      (sid : String) (d : Option (List ℤ)) (c : SpreedClient)
      → Inv nc c
      → Inv nc (push_audio sid d c)
  unfolding push_audio
  push_audio-Inv sid none c v = v
  push_audio-Inv sid (some []) c v = v
  push_audio-Inv sid (some (x ∷ xs)) c v = ground arith
