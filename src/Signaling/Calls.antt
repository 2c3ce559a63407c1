-- ===== src/Signaling/Calls.antt =====
-- Everything that may happen to a connected client (internal/signaling/client.go), as one call
-- each: the requests of the application, what the monitor does with what it has read, the firing of a
-- timer, and the callbacks of the WebRTC stack. A message that the monitor has read is handled in any
-- state, since the source tests nothing between the read and the handling; and each part of an offer
-- and of a participant update for which the source takes a lock is a call too, so that other calls may
-- fall between the parts.
use go_live_transcription.Prelude.{ℕ, String, Bool, Option, List, [], ◌∷◌}
use go_live_transcription.Prelude.Int.{ℤ}
use go_live_transcription.Signaling.Messages.{SignalingMessage}
use go_live_transcription.Signaling.Client.{
  SpreedClient, Transcript, send_message, set_room_lang_id, close, fire_deferred_close,
}
use go_live_transcription.Signaling.Targets.{
  add_target, remove_target, drop_target, send_transcript,
}
use go_live_transcription.Signaling.Offers.{
  PeerState, drop_peer, establish, send_offer_request, peer_state_changed, ice_candidate,
  push_audio,
}
use go_live_transcription.Signaling.Events.{unmap_user, map_user}
use go_live_transcription.Signaling.Monitor.{Received, handle_received}

pub data Call : Type 0 where
  adds_target removes_target sets_language : String → Call
  sends : SignalingMessage → Call
  sends_transcript : Transcript → Option (String → Bool) → Call
  handles : Received → Call
  drops_peer drops_target unmaps requests_offer : String → Call
  maps : String → String → Call
  establishes : Option ℕ → Option String → String → String → String → Call
  timer_fires : ℕ → Call
  closes : Call
  peer_changes : String → PeerState → Call
  finds_candidate : String → String → Option String → Call
  hears : String → Option (List ℤ) → Call

unfoldable pub step : Call → SpreedClient → SpreedClient
step (adds_target nc) c = add_target nc c
step (removes_target nc) c = remove_target nc c
step (sets_language l) c = set_room_lang_id l c
step (sends m) c = send_message m c
step (sends_transcript t exclude) c = send_transcript t exclude c
step (handles r) c = (handle_received r c).0
step (drops_peer sid) c = drop_peer sid c
step (drops_target hpb) c = drop_target hpb c
step (unmaps nc) c = unmap_user nc c
step (requests_offer sid) c = send_offer_request sid c
step (maps nc hpb) c = map_user nc hpb c
step (establishes pc answer speaker sid to) c = establish pc answer speaker sid to c
step (timer_fires t) c = fire_deferred_close t c
step closes c = close c
step (peer_changes s p) c = peer_state_changed s p c
step (finds_candidate s o k) c = ice_candidate s o k c
step (hears s d) c = push_audio s d c

unfoldable pub run : List Call → SpreedClient → SpreedClient
run [] c = c
run (k ∷ ks) c = run ks (step k c)
