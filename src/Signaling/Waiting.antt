-- ===== src/Signaling/Waiting.antt =====
-- Requests for sessions that are not known yet, and the deferred close timer
-- (internal/signaling/client.go).
use go_live_transcription.Prelude.{
  String, ◌==◌, eq_refl, true, false, ◌≡◌, ◌≢◌, none, some, [], arith, nat_eq, if◌then◌else◌,
  ne-eq_false,
}
use go_live_transcription.GoMap.{has, lookup, add}
use go_live_transcription.GoMap.Laws.{lookup-insert, has-insert, has-delete}
use go_live_transcription.Signaling.Messages.{UserUpdateEntry, call_flag_disconnected}
use go_live_transcription.Signaling.Client.{SpreedClient, cancel_deferred_close, send_message}
use go_live_transcription.Signaling.Targets.{add_target, remove_target}
use go_live_transcription.Signaling.Offers.{send_offer_request}
use go_live_transcription.Signaling.Events.{handle_user, map_user, request_audio}
use go_live_transcription.Signaling.Invariant.Client.{OneTimer}

-- A participant's entry that shows it in the call.
pub record IsJoining (u : UserUpdateEntry) : Type 0 where
  pub external : u.internal ≡ false
  pub present : nat_eq u.in_call call_flag_disconnected ≡ false
  pub named : u.nextcloud_session_id ≢ ""

request_audio-targets :
    (u : UserUpdateEntry) (c : SpreedClient)
    → ((request_audio u c).targets ≡ c.targets)
      × ((request_audio u c).nc_sid_wait_stash ≡ c.nc_sid_wait_stash)
      × ((request_audio u c).nc_sid_map ≡ c.nc_sid_map)
unfolding request_audio send_offer_request send_message
request_audio-targets u c = ground arith

add_target_unknown :
    (nc : String) (c : SpreedClient)
    → lookup nc c.nc_sid_map ≡ none
    → has nc (add_target nc c).nc_sid_wait_stash ≡ true
unfolding add_target cancel_deferred_close
add_target_unknown nc c unknown =
    ground (arith, has-insert nc nc tt c.nc_sid_wait_stash, eq_refl nc)

map_user_waiting :
    (nc hpb : String) (c : SpreedClient)
    → nc ≢ ""
    → has nc c.nc_sid_wait_stash ≡ true
    → let d = map_user nc hpb c in
      (has hpb d.targets ≡ true)
      × (lookup nc d.nc_sid_map ≡ some hpb)
      × (has nc d.nc_sid_wait_stash ≡ false)
unfolding map_user
map_user_waiting nc hpb c named waits = ground (
  arith,
  ne-eq_false nc "" named,
  has-insert hpb hpb tt c.targets,
  eq_refl hpb,
  eq_refl nc,
  lookup-insert nc nc hpb c.nc_sid_map,
  has-delete nc nc c.nc_sid_wait_stash,
)

-- A request for a session that the server has not announced is kept, and met when the participant's
-- entry arrives: the session that the entry names is a target then, is mapped, and no longer waits.
pub add_target_then_join :
    (u : UserUpdateEntry) (c : SpreedClient)
    → IsJoining u
    → lookup u.nextcloud_session_id c.nc_sid_map ≡ none
    → let d = handle_user u (add_target u.nextcloud_session_id c) in
      (has u.session_id d.targets ≡ true)
      × (lookup u.nextcloud_session_id d.nc_sid_map ≡ some u.session_id)
      × (has u.nextcloud_session_id d.nc_sid_wait_stash ≡ false)
unfolding handle_user
add_target_then_join u c j unknown =
    let d = add_target u.nextcloud_session_id c in
    let e = map_user u.nextcloud_session_id u.session_id d in
    ground (
      arith,
      j,
      map_user_waiting u.nextcloud_session_id u.session_id d j.named
          (add_target_unknown u.nextcloud_session_id c unknown),
      request_audio-targets u e,
    )

-- A request is granted at once where the session is known.
pub add_target_known :
    (nc hpb other : String) (c : SpreedClient)
    → lookup nc c.nc_sid_map ≡ some hpb
    → has other (add_target nc c).targets ≡ (if hpb == other then true else has other c.targets)
unfolding add_target cancel_deferred_close
add_target_known nc hpb other c known = ground (arith, has-insert hpb other tt c.targets)

-- The leak: a request for a session that is not known yet stops the deferred close timer, and its
-- withdrawal does not start it again, so a call that nobody listens to is left by no timer.
pub withdrawn_target_leaks :
    (nc : String) (c : SpreedClient)
    → OneTimer c.pending_timers c.deferred_close_timer
    → lookup nc c.nc_sid_map ≡ none
    → let d = remove_target nc (add_target nc c) in
      (d.targets ≡ c.targets)
      × (has nc d.nc_sid_wait_stash ≡ false)
      × (d.pending_timers ≡ [])
      × (d.defunct ≡ c.defunct)
unfolding add_target remove_target cancel_deferred_close
withdrawn_target_leaks nc c timer unknown =
    ground (arith, has-delete nc nc (add nc c.nc_sid_wait_stash), eq_refl nc)
