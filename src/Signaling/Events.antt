-- ===== src/Signaling/Events.antt =====
-- Participant updates from the signaling server (internal/signaling/client.go).
use go_live_transcription.Prelude.{
  String, ◌==◌, not, ◌&&◌, Option, none, some, List, [], ◌∷◌, length, if◌then◌else◌, nat_eq,
}
use go_live_transcription.GoMap.{has, insert, delete, add}
use go_live_transcription.Signaling.Messages.{
  EventMessage, EventUpdate, UserUpdateEntry, has_flag, call_flag_disconnected, call_flag_in_call,
  call_flag_with_audio,
}
use go_live_transcription.Signaling.Client.{SpreedClient, close}
use go_live_transcription.Signaling.Targets.{remove_target_by_hpb_sid}
use go_live_transcription.Signaling.Offers.{drop_peer, send_offer_request}

-- `delete(sc.ncSidMap, …)` under its test.
abbrev pub unmap_user : String → SpreedClient → SpreedClient
unmap_user nc c = if nc == "" then c else record c { nc_sid_map = delete nc c.nc_sid_map }

unfoldable pub user_left : UserUpdateEntry → SpreedClient → SpreedClient
user_left u c =
    unmap_user u.nextcloud_session_id
      (drop_peer u.session_id (remove_target_by_hpb_sid u.session_id c))

-- Records which HPB session a Nextcloud session has, and makes a target of one that waits.
unfoldable pub map_user : String → String → SpreedClient → SpreedClient
map_user nc hpb c =
    if nc == ""
    then c
    else (let d = record c { nc_sid_map = insert nc hpb c.nc_sid_map } in
        if has nc d.nc_sid_wait_stash
        then record d {
          nc_sid_wait_stash = delete nc d.nc_sid_wait_stash;
          targets = add hpb d.targets;
        }
        else d)

unfoldable pub request_audio : UserUpdateEntry → SpreedClient → SpreedClient
request_audio u c =
    if has_flag call_flag_in_call u.in_call
      && has_flag call_flag_with_audio u.in_call
      && not (has u.session_id c.peer_conns)
    then send_offer_request u.session_id c
    else c

-- One round of the loop over the users.
unfoldable pub handle_user : UserUpdateEntry → SpreedClient → SpreedClient
unfolding user_left map_user
handle_user u c =
    if u.internal
    then c
    else (if nat_eq u.in_call call_flag_disconnected
        then user_left u c
        else request_audio u (map_user u.nextcloud_session_id u.session_id c))

unfoldable pub handle_users : List UserUpdateEntry → SpreedClient → SpreedClient
handle_users [] c = c
handle_users (u ∷ us) c = handle_users us (handle_user u c)

-- The loop of `checkLastUserLeft`: the last entry that is us, and the last that is not.
unfoldable pub find_us_them :
    String
    → Option UserUpdateEntry
    → Option UserUpdateEntry
    → List UserUpdateEntry
    → Option (UserUpdateEntry × UserUpdateEntry)
find_us_them sid (some us) (some them) [] = some (us, them)
find_us_them sid _ _ [] = none
find_us_them sid us them (u ∷ users) =
    find_us_them sid (if u.session_id == sid then some u else us)
      (if u.session_id == sid then them else some u) users

unfoldable pub close_if_last :
    Option (UserUpdateEntry × UserUpdateEntry) → SpreedClient → SpreedClient
close_if_last none c = c
close_if_last (some (us, them)) c =
    if has_flag call_flag_in_call us.in_call && nat_eq them.in_call call_flag_disconnected
    then close c
    else c

unfoldable pub check_last_user_left : List UserUpdateEntry → SpreedClient → SpreedClient
unfolding close_if_last
check_last_user_left users c = close_if_last (find_us_them c.session_id none none users) c

-- The part of `handleEvent` behind its first two tests.
unfoldable pub handle_update : EventUpdate → SpreedClient → SpreedClient
handle_update u c =
    if u.all && nat_eq u.in_call call_flag_disconnected
    then close c
    else (let d = handle_users u.users c in
        if nat_eq (length u.users) 2 then check_last_user_left u.users d else d)

unfoldable pub handle_optional_update : Option EventUpdate → SpreedClient → SpreedClient
handle_optional_update none c = c
handle_optional_update (some u) c = handle_update u c

unfoldable pub handle_event : Option EventMessage → SpreedClient → SpreedClient
unfolding handle_optional_update
handle_event none c = c
handle_event (some e) c =
    if e.target == "participants" && e.type == "update"
    then handle_optional_update e.update c
    else c
