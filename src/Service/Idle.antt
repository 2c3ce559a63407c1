-- ===== src/Service/Idle.antt =====
-- The end of a call that nobody wants transcribed any more: `TranscriptReq` of
-- internal/service/service.go with the timer of internal/signaling/client.go.
use mathlib.Core.List.{Memᴰ}
use go_live_transcription.Prelude.{
  ℕ, ◌+◌, String, eq_refl, ◌≡◌, refl, ap, ◌∙◌, true, false, Option, none, some, ◌∷◌, arith,
  Option-cases,
}
use go_live_transcription.GoMap.{lookup, insert, delete, is_empty}
use go_live_transcription.GoMap.Laws.{lookup-insert, lookup-delete}
use go_live_transcription.Signaling.Messages.{HpbSettings}
use go_live_transcription.Signaling.Client.{
  SpreedClient, stop_timer, cancel_deferred_close, start_deferred_close, start_if_no_target,
  should_leave, fire_deferred_close, close, close_live, send_message,
}
use go_live_transcription.Signaling.Targets.{remove_target, drop_target}
use go_live_transcription.Service.Application.{RoomState, Application, leave_call_cb, stop_room}
use go_live_transcription.Service.Request.{
  Endpoints, Attempt, transcript_req, request_found, request_in_room, with_client, done,
}
use go_live_transcription.Service.Ending.{Over, stop-Over, leave_call_cb-found}

-- A change of the client of a room in the map.
unfoldable pub change_found :
    Option RoomState → String → (SpreedClient → SpreedClient) → Application → Application
change_found none token change app = app
change_found (some rs) token change app = record app {
  rooms = insert token (with_client (change rs.client) rs) app.rooms;
}

-- The timer of a room's client fires.
unfoldable pub fire_in : String → ℕ → Application → Application
unfolding change_found fire_deferred_close
fire_in token t app = change_found (lookup token app.rooms) token (fire_deferred_close t) app

-- The withdrawal of the only target starts the timer.
start-timer :
    (nc hpb : String) (c : SpreedClient)
    → lookup nc c.nc_sid_map ≡ some hpb
    → is_empty (delete hpb c.targets) ≡ true
    → remove_target nc c
      ≡ start_deferred_close (record c {
        nc_sid_wait_stash = delete nc c.nc_sid_wait_stash;
        targets = delete hpb c.targets;
      })
unfolding remove_target drop_target start_if_no_target
start-timer nc hpb c e free = ground (arith, e, free)

cancel_same :
    (c : SpreedClient)
    → let d = cancel_deferred_close c in
      (d.defunct ≡ c.defunct) × (d.targets ≡ c.targets) × (d.callbacks ≡ c.callbacks)
unfolding cancel_deferred_close
cancel_same c = ground (arith, Option-cases c.deferred_close_timer)

started_timer :
    (c : SpreedClient)
    → let d = start_deferred_close c in
      (t : ℕ) × (d.deferred_close_timer ≡ some t)
      × Memᴰ t d.pending_timers
      × (d.defunct ≡ c.defunct)
      × (d.targets ≡ c.targets)
unfolding start_deferred_close
started_timer c =
    let (live, same, calls) = cancel_same c in
    ((cancel_deferred_close c).next_timer, refl, Memᴰ.head refl, live, same)

closed_client :
    (c : SpreedClient)
    → ((close_live c).defunct ≡ true) × ((close_live c).callbacks ≡ c.callbacks + 1)
unfolding close_live send_message
closed_client c = (refl, ground (arith, cancel_same (record c { cancel = false })))

fired_client :
    (t : ℕ) (c : SpreedClient)
    → c.defunct ≡ false
    → is_empty c.targets ≡ true
    → ((fire_deferred_close t c).defunct ≡ true)
      × ((fire_deferred_close t c).callbacks ≡ c.callbacks + 1)
unfolding fire_deferred_close should_leave close
fired_client t c live free =
    ground (
      arith,
      live,
      free,
      closed_client (record c { pending_timers = stop_timer t c.pending_timers }),
    )

-- A room whose client becomes defunct is taken from the map by the callback.
changed-room :
    (token : String) (change : SpreedClient → SpreedClient) (rs : RoomState) (app : Application)
    → lookup token app.rooms ≡ some rs
    → (change rs.client).defunct ≡ true
    → let last = stop_room (with_client (change rs.client) rs) in
      let left = leave_call_cb token (change_found (lookup token app.rooms) token change app) in
      (left.ended ≡ last ∷ app.ended) × Over last × (lookup token left.rooms ≡ none)
unfolding change_found
changed-room token change rs app e gone =
    let new = with_client (change rs.client) rs in
    let changed : Application = record app { rooms = insert token new app.rooms } in
    let there : lookup token changed.rooms ≡ some new =
      ground (arith, eq_refl token, lookup-insert token token new app.rooms) in
    let left = leave_call_cb-found token new changed there gone in
    rw (e, left)
      (
        refl,
        stop-Over new gone,
        ground (arith, eq_refl token, lookup-delete token token changed.rooms),
      )

module _ (hmac : String → String → String) where
  disabled-room :
      (fetched : Option HpbSettings) (attempts : ℕ → Attempt) (ends : Endpoints)
      (token nc lang : String) (rs : RoomState) (app : Application)
      → lookup token app.rooms ≡ some rs
      → rs.client.defunct ≡ false
      → transcript_req hmac fetched attempts ends token nc lang false app ≡ (
        done,
        record app { rooms = insert token (with_client (remove_target nc rs.client) rs) app.rooms },
      )
  unfolding transcript_req request_found request_in_room
  disabled-room fetched attempts ends token nc lang rs app e live = rw (e, live) refl

  -- When the only target of a call that has a room withdraws, the timer of its client is set and will
  -- fire; when it does, with nothing else in between, the client starts one callback, and the callback
  -- takes the room from the map, with its client closed and its loops and its translation stopped.
  pub idle_room_ends :
      (fetched : Option HpbSettings) (attempts : ℕ → Attempt) (ends : Endpoints)
      (token nc hpb lang : String) (rs : RoomState) (app : Application)
      → lookup token app.rooms ≡ some rs
      → rs.client.defunct ≡ false
      → lookup nc rs.client.nc_sid_map ≡ some hpb
      → is_empty (delete hpb rs.client.targets) ≡ true
      → let left = (transcript_req hmac fetched attempts ends token nc lang false app).1 in
        (t : ℕ) × (waiting : RoomState) × (lookup token left.rooms ≡ some waiting)
        × (waiting.client.deferred_close_timer ≡ some t)
        × Memᴰ t waiting.client.pending_timers
        × ((fire_deferred_close t waiting.client).callbacks ≡ waiting.client.callbacks + 1)
        × (let over = leave_call_cb token (fire_in token t left) in
            (last : RoomState) × (over.ended ≡ last ∷ app.ended)
            × Over last
            × (lookup token over.rooms ≡ none))
  unfolding fire_in
  idle_room_ends fetched attempts ends token nc hpb lang rs app e live known only =
      let idle : SpreedClient = record rs.client {
        nc_sid_wait_stash = delete nc rs.client.nc_sid_wait_stash;
        targets = delete hpb rs.client.targets;
      } in
      let (t, set, pending, still_live, same) = started_timer idle in
      let waiting = with_client (start_deferred_close idle) rs in
      let after : Application = record app { rooms = insert token waiting app.rooms } in
      let there : lookup token after.rooms ≡ some waiting =
        ground (arith, eq_refl token, lookup-insert token token waiting app.rooms) in
      let asked = disabled-room fetched attempts ends token nc lang rs app e live in
      let (gone, calls) =
        fired_client t waiting.client (still_live ∙ live) (ap is_empty same ∙ only) in
      let (ended, over, away) =
        changed-room token (fire_deferred_close t) waiting after there gone in
      rw (asked, start-timer nc hpb rs.client known only)
        (
          t,
          waiting,
          there,
          set,
          pending,
          calls,
          (
            stop_room (with_client (fire_deferred_close t waiting.client) waiting),
            ended,
            over,
            away,
          ),
        )
