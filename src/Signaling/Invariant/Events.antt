-- ===== src/Signaling/Invariant/Events.antt =====
-- Participant updates and what the monitor reads keep the client's invariant.
use go_live_transcription.Prelude.{String, eq_iff, Option, none, some, List, [], ◌∷◌, arith}
use go_live_transcription.GoMap.Laws.{lookup-insert, lookup-delete, has-delete}
use go_live_transcription.Signaling.Messages.{
  SignalingMessage, UserUpdateEntry, EventUpdate, EventMessage,
}
use go_live_transcription.Signaling.Client.{SpreedClient}
use go_live_transcription.Signaling.Targets.{remove_target_by_hpb_sid}
use go_live_transcription.Signaling.Offers.{PeerSetup, send_offer_request}
use go_live_transcription.Signaling.Events.{
  user_left, map_user, request_audio, handle_user, handle_users, close_if_last,
  check_last_user_left, handle_update, handle_optional_update, handle_event, unmap_user,
  find_us_them,
}
use go_live_transcription.Signaling.Monitor.{
  Received, read_error, message, dispatch, handle_received,
}
use go_live_transcription.Signaling.Invariant.Client.{Inv, send-Inv, close-Inv}
use go_live_transcription.Signaling.Invariant.Targets.{drop_target-Inv}
use go_live_transcription.Signaling.Invariant.Peers.{drop_peer-Inv, handle_message-Inv}

module _ (nc : String) where
  pub unmap_user-Inv : (k : String) (c : SpreedClient) → Inv nc c → Inv nc (unmap_user k c)
  unmap_user-Inv k c v = ground (arith, lookup-delete k nc c.nc_sid_map)

  user_left-Inv : (u : UserUpdateEntry) (c : SpreedClient) → Inv nc c → Inv nc (user_left u c)
  unfolding user_left remove_target_by_hpb_sid
  user_left-Inv u c v =
      unmap_user-Inv _ _ (drop_peer-Inv nc u.session_id _ (drop_target-Inv nc u.session_id c v))

  pub map_user-Inv : (k hpb : String) (c : SpreedClient) → Inv nc c → Inv nc (map_user k hpb c)
  unfolding map_user
  map_user-Inv k hpb c v =
      ground (
        arith,
        lookup-insert k nc hpb c.nc_sid_map,
        has-delete k nc c.nc_sid_wait_stash,
        eq_iff k nc,
      )

  pub send_offer_request-Inv :
      (sid : String) (c : SpreedClient) → Inv nc c → Inv nc (send_offer_request sid c)
  unfolding send_offer_request
  send_offer_request-Inv sid c v = send-Inv nc c v _

  request_audio-Inv :
      (u : UserUpdateEntry) (c : SpreedClient) → Inv nc c → Inv nc (request_audio u c)
  unfolding request_audio
  request_audio-Inv u c v = ground (arith, v, send_offer_request-Inv u.session_id c v)

  handle_user-Inv : (u : UserUpdateEntry) (c : SpreedClient) → Inv nc c → Inv nc (handle_user u c)
  unfolding handle_user
  handle_user-Inv u c v =
      let d = map_user u.nextcloud_session_id u.session_id c in
      ground (
        arith,
        v,
        user_left-Inv u c v,
        request_audio-Inv u d (map_user-Inv u.nextcloud_session_id u.session_id c v),
      )

  pub handle_users-Inv :
      (us : List UserUpdateEntry) (c : SpreedClient) → Inv nc c → Inv nc (handle_users us c)
  unfolding handle_users
  handle_users-Inv [] c v = v
  handle_users-Inv (u ∷ us) c v = handle_users-Inv us _ (handle_user-Inv u c v)

  close_if_last-Inv :
      (pair : Option (UserUpdateEntry × UserUpdateEntry)) (c : SpreedClient)
      → Inv nc c
      → Inv nc (close_if_last pair c)
  unfolding close_if_last
  close_if_last-Inv none c v = v
  close_if_last-Inv (some (us, them)) c v = ground (arith, v, close-Inv nc c v)

  handle_update-Inv : (u : EventUpdate) (c : SpreedClient) → Inv nc c → Inv nc (handle_update u c)
  unfolding handle_update check_last_user_left
  handle_update-Inv u c v =
      let d = handle_users u.users c in
      let w : Inv nc d = handle_users-Inv u.users c v in
      ground (
        arith,
        w,
        close-Inv nc c v,
        close_if_last-Inv (find_us_them d.session_id none none u.users) d w,
      )

  pub handle_event-Inv :
      (e : Option EventMessage) (c : SpreedClient) → Inv nc c → Inv nc (handle_event e c)
  unfolding handle_event handle_optional_update
  handle_event-Inv none c v = v
  handle_event-Inv (some e) c v = ground (arith, v, optional e.update)
    where
      optional : (u : Option EventUpdate) → Inv nc (handle_optional_update u c)
      optional none = v
      optional (some u) = handle_update-Inv u c v

  dispatch-Inv :
      (s : PeerSetup) (msg : SignalingMessage) (c : SpreedClient)
      → Inv nc c
      → Inv nc (dispatch s msg c).0
  unfolding dispatch
  dispatch-Inv s msg c v = ground (
    arith,
    v,
    close-Inv nc c v,
    handle_event-Inv msg.event c v,
    handle_message-Inv nc s msg.message c v,
  )

  pub handle_received-Inv :
      (r : Received) (c : SpreedClient) → Inv nc c → Inv nc (handle_received r c).0
  unfolding handle_received
  handle_received-Inv read_error c v = ground (arith, v, close-Inv nc c v)
  handle_received-Inv (message s msg) c v = dispatch-Inv s msg c v
