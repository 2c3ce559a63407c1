-- ===== src/Service/Ending.antt =====
-- How rooms end (internal/service/service.go).
use go_live_transcription.Prelude.{
  String, ◌==◌, eq_iff, eq_refl, ◌≡◌, refl, true, false, none, some, ◌∷◌, if◌then◌else◌, arith,
}
use go_live_transcription.GoMap.{lookup, insert, delete}
use go_live_transcription.GoMap.Laws.{lookup-insert, lookup-delete}
use go_live_transcription.Signaling.Client.{SpreedClient, close, close_live}
use go_live_transcription.Translation.Meta.{shutdown, stop}
use go_live_transcription.Service.Application.{
  RoomState, Application, close_room, stop_room, leave_found, leave_call, clean_found,
  leave_call_cb,
}

-- Nothing of a room goes on: its client is closed, its loops and its translation are stopped.
pub record Over (rs : RoomState) : Type 0 where
  pub closed : rs.client.defunct ≡ true
  pub stopped : rs.running ≡ false
  pub silent : rs.meta.running ≡ false

pub close-defunct : (c : SpreedClient) → (close c).defunct ≡ true
unfolding close close_live
close-defunct c = ground arith

pub stop-Over : (rs : RoomState) → rs.client.defunct ≡ true → Over (stop_room rs)
unfolding stop_room shutdown stop
stop-Over rs h = record { closed = h; stopped = refl; silent = refl }

leave_call-found :
    (token : String) (rs : RoomState) (app : Application)
    → lookup token app.rooms ≡ some rs
    → leave_call token app ≡ record app { rooms = insert token (close_room rs) app.rooms }
unfolding leave_call leave_found
leave_call-found token rs app e = rw (e) refl

pub leave_call_cb-found :
    (token : String) (rs : RoomState) (app : Application)
    → lookup token app.rooms ≡ some rs
    → rs.client.defunct ≡ true
    → leave_call_cb token app
      ≡ record app { rooms = delete token app.rooms; ended = stop_room rs ∷ app.ended }
unfolding leave_call_cb clean_found
leave_call_cb-found token rs app e d = rw (e, d) refl

close_room-defunct : (rs : RoomState) → (close_room rs).client.defunct ≡ true
unfolding close_room
close_room-defunct rs = close-defunct rs.client

-- A request to leave a room, and the callback that its client then starts, take the room from the
-- map with nothing of it going on, and leave the other rooms alone.
pub leave_call-cleans :
    (token other : String) (rs : RoomState) (app : Application)
    → lookup token app.rooms ≡ some rs
    → let left = leave_call_cb token (leave_call token app) in
      (left.ended ≡ stop_room (close_room rs) ∷ app.ended)
      × Over (stop_room (close_room rs))
      × (lookup other left.rooms ≡ (if token == other then none else lookup other app.rooms))
leave_call-cleans token other rs app e =
    let closed = close_room rs in
    let rooms = insert token closed app.rooms in
    let dead = close_room-defunct rs in
    let here : lookup token rooms ≡ some closed =
      ground (arith, lookup-insert token token closed app.rooms, eq_refl token) in
    let here_cb = leave_call_cb-found token closed (record app { rooms = rooms }) here dead in
    rw (leave_call-found token rs app e, here_cb)
      (
        refl,
        stop-Over closed dead,
        ground (
          arith,
          eq_iff token other,
          lookup-delete token other rooms,
          lookup-insert token other closed app.rooms,
        ),
      )
