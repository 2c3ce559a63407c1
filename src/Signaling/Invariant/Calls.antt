-- ===== src/Signaling/Invariant/Calls.antt =====
-- The client's invariant holds of a new client and along every run.
use go_live_transcription.Prelude.{String, List, [], ◌∷◌, arith}
use go_live_transcription.GoMap.{keys}
use go_live_transcription.Signaling.Client.{SpreedClient, set_room_lang_id}
use go_live_transcription.Signaling.Targets.{send_transcript}
use go_live_transcription.Signaling.Calls.{
  Call, adds_target, removes_target, sets_language, sends, sends_transcript, handles, drops_peer,
  drops_target, unmaps, requests_offer, maps, establishes, timer_fires, closes, peer_changes,
  finds_candidate, hears, step, run,
}
use go_live_transcription.Signaling.Invariant.Client.{Inv, send-Inv, close-Inv, fire-Inv}
use go_live_transcription.Signaling.Invariant.Targets.{
  add_target-Inv, remove_target-Inv, drop_target-Inv, send_to-Inv,
}
use go_live_transcription.Signaling.Invariant.Peers.{
  drop_peer-Inv, establish-Inv, peer_state_changed-Inv, ice_candidate-Inv, push_audio-Inv,
}
use go_live_transcription.Signaling.Invariant.Events.{
  handle_received-Inv, unmap_user-Inv, map_user-Inv, send_offer_request-Inv,
}

module _ (nc : String) where
  step-Inv : (k : Call) (c : SpreedClient) → Inv nc c → Inv nc (step k c)
  unfolding step set_room_lang_id send_transcript
  step-Inv (adds_target k) c v = add_target-Inv nc k c v
  step-Inv (removes_target k) c v = remove_target-Inv nc k c v
  step-Inv (sets_language l) c v = ground arith
  step-Inv (sends m) c v = send-Inv nc c v m
  step-Inv (sends_transcript t exclude) c v =
      send_to-Inv nc t exclude c.nc_sid_map (keys c.targets) c v
  step-Inv (handles r) c v = handle_received-Inv nc r c v
  step-Inv (drops_peer sid) c v = drop_peer-Inv nc sid c v
  step-Inv (drops_target hpb) c v = drop_target-Inv nc hpb c v
  step-Inv (unmaps k) c v = unmap_user-Inv nc k c v
  step-Inv (requests_offer sid) c v = send_offer_request-Inv nc sid c v
  step-Inv (maps k hpb) c v = map_user-Inv nc k hpb c v
  step-Inv (establishes pc answer speaker sid to) c v =
      establish-Inv nc pc answer speaker sid to c v
  step-Inv (timer_fires t) c v = fire-Inv nc c v t
  step-Inv closes c v = close-Inv nc c v
  step-Inv (peer_changes s p) c v = peer_state_changed-Inv nc s p c v
  step-Inv (finds_candidate s o k) c v = ice_candidate-Inv nc s o k c v
  step-Inv (hears s d) c v = push_audio-Inv nc s d c v

  -- Whatever happens to a client, in whatever order, keeps its invariant: the messages sent carry
  -- the numbers 1, 2, … (of a 64-bit counter), a Nextcloud session that waits is not mapped, at
  -- most one timer is pending and the client knows it, and a closed client has no connection and no
  -- monitor.
  pub run-Inv : (ks : List Call) (c : SpreedClient) → Inv nc c → Inv nc (run ks c)
  unfolding run
  run-Inv [] c v = v
  run-Inv (k ∷ ks) c v = run-Inv ks (step k c) (step-Inv k c v)
