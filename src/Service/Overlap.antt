-- ===== src/Service/Overlap.antt =====
-- Requests that overlap (`TranscriptReq` of internal/service/service.go): the code between two
-- points at which another goroutine may run is one step, and rooms are pointers. A request looks
-- for its room, gives the lock up, puts a new room in the map and connects, one attempt at a time.
-- The settings of the signaling server are known, so no request for them fails.
pub mod Invariant
pub mod Rooms
pub mod Orderly
pub mod Lost
use go_live_transcription.Prelude.{
  ℕ, zero, suc, ◌+◌, String, Bool, true, false, Option, none, some, List, [], ◌∷◌, if◌then◌else◌,
  nat_eq,
}
use go_live_transcription.Constants.{max_connect_tries}
use go_live_transcription.GoMap.{GoMap, lookup, insert, delete}
use go_live_transcription.Signaling.Messages.{
  HpbSettings, SigConnectResult, success, failure, retry, no_reconnect,
}
use go_live_transcription.Signaling.Client.{SpreedClient}
use go_live_transcription.Signaling.Targets.{add_target, remove_target}
use go_live_transcription.Signaling.Connect.{ConnectError, Connected, connect}
use go_live_transcription.Service.Application.{RoomState, close_room, stop_room}
use go_live_transcription.Service.Request.{
  Answer, done, deferred, connection_failed, tries_failed, Endpoints, Attempt, new_room,
  with_client,
}

-- Where a request is: before its look-up, behind a look-up that found nothing, in the loop of
-- attempts with its room and the tries that are left, or at its end.
pub data Phase : Type 0 where
  looking building : Phase
  connecting : ℕ → ℕ → Option ConnectError → Phase
  answered : Answer → Phase

-- A request for transcripts.
pub record Request : Type 0 where
  pub token : String
  pub nc : String
  pub lang : String
  pub enable : Bool

-- The rooms as pointers into `heap`, of which those below `next` are given out, and the requests.
pub record System : Type 0 where
  pub rooms : GoMap ℕ
  pub heap : ℕ → RoomState
  pub next : ℕ
  pub phases : ℕ → Phase

-- A function with one value changed.
abbrev pub put {ℓ} : {A : Type ℓ} → ℕ → A → (ℕ → A) → ℕ → A
put i x f j = if nat_eq j i then x else f j

-- A request that was deferred is made again.
abbrev pub can_look : Phase → Bool
can_look looking = true
can_look (answered deferred) = true
can_look _ = false

-- Whether a request is behind its look-up and not at its end.
abbrev pub active : Phase → Bool
active building = true
active (connecting p n e) = true
active _ = false

-- What a request does with the room it finds, by whether its client is defunct.
unfoldable pub found_at : Bool → ℕ → ℕ → Request → System → System
found_at true p i q s = record s {
  phases = put i (answered (if q.enable then deferred else done)) s.phases;
}
found_at false p i q s =
    let rs = s.heap p in
    record s {
      heap =
          put p
            (with_client
              (if q.enable then add_target q.nc rs.client else remove_target q.nc rs.client) rs)
            s.heap;
      phases = put i (answered done) s.phases;
    }

unfoldable pub look_found : Option ℕ → ℕ → Request → System → System
unfolding found_at
look_found none i q s = record s {
  phases = put i (if q.enable then building else answered done) s.phases;
}
look_found (some p) i q s = found_at (s.heap p).client.defunct p i q s

unfoldable pub look : ℕ → Request → System → System
unfolding look_found
look i q s = if can_look (s.phases i) then look_found (lookup q.token s.rooms) i q s else s

abbrev pub close_at : ℕ → System → System
close_at p s = record s { heap = put p (close_room (s.heap p)) s.heap }

unfoldable pub leave_at : Option ℕ → System → System
leave_at none s = s
leave_at (some p) s = close_at p s

unfoldable pub clean_if : Bool → ℕ → String → System → System
clean_if true p token s = record s {
  heap = put p (stop_room (s.heap p)) s.heap;
  rooms = delete token s.rooms;
}
clean_if false p token s = s

unfoldable pub clean_at : Option ℕ → String → System → System
unfolding clean_if
clean_at none token s = s
clean_at (some p) token s = clean_if (s.heap p).client.defunct p token s

-- The loop of `Shutdown` over the rooms of the map.
unfoldable pub stop_each : GoMap ℕ → (ℕ → RoomState) → ℕ → RoomState
stop_each [] heap = heap
stop_each ((token, p) ∷ rooms) heap = stop_each rooms (put p (stop_room (close_room (heap p))) heap)

module _ (ends : Endpoints) (settings : HpbSettings) where
  unfoldable pub install_in : Phase → ℕ → Request → System → System
  install_in building i q s = record s {
    heap = put s.next (new_room ends settings q.token q.lang) s.heap;
    rooms = insert q.token s.next s.rooms;
    next = s.next + 1;
    phases = put i (connecting s.next max_connect_tries none) s.phases;
  }
  install_in _ i q s = s

-- What a request makes of the result of `Connect`; where it fails, the room's entry is deleted by its
-- token, whatever room stands there.
unfoldable pub attempt_ends : SigConnectResult → Connected → ℕ → ℕ → ℕ → Request → System → System
attempt_ends success r p n i q s = record s {
  heap = put p (with_client (add_target q.nc r.client) (s.heap p)) s.heap;
  phases = put i (answered done) s.phases;
}
attempt_ends failure r p n i q s = record s {
  heap = put p (record (close_room (with_client r.client (s.heap p))) { running = false }) s.heap;
  rooms = delete q.token s.rooms;
  phases = put i (answered (connection_failed r.error)) s.phases;
}
attempt_ends retry r p n i q s = record s {
  heap = put p (with_client r.client (s.heap p)) s.heap;
  phases = put i (connecting p n r.error) s.phases;
}

module _ (hmac : String → String → String) where
  unfoldable pub attempt_in : Phase → Attempt → ℕ → Request → System → System
  unfolding attempt_ends
  attempt_in (connecting p (suc n) last) a i q s =
      let r = connect hmac a.nonce a.dialed a.frames no_reconnect (s.heap p).client in
      attempt_ends r.result r p n i q s
  attempt_in (connecting p zero last) a i q s = record s {
    phases = put i (answered (tries_failed last)) s.phases;
  }
  attempt_in looking a i q s = s
  attempt_in building a i q s = s
  attempt_in (answered x) a i q s = s

-- A step of a request, another operation on the rooms, or a change of the client of a room, which
-- may be any.
pub data Event : Type 0 where
  looks installs : ℕ → Event
  attempts : ℕ → Attempt → Event
  leaves cleans : String → Event
  moves : ℕ → SpreedClient → Event
  shuts_down : Event

module _ (hmac : String → String → String) (ends : Endpoints) (settings : HpbSettings)
    (request : ℕ → Request) where
  unfoldable pub step : Event → System → System
  unfolding look leave_at clean_at stop_each install_in attempt_in
  step (looks i) s = look i (request i) s
  step (installs i) s = install_in ends settings (s.phases i) i (request i) s
  step (attempts i a) s = attempt_in hmac (s.phases i) a i (request i) s
  step (leaves token) s = leave_at (lookup token s.rooms) s
  step (cleans token) s = clean_at (lookup token s.rooms) token s
  step (moves p client) s = record s { heap = put p (with_client client (s.heap p)) s.heap }
  step shuts_down s = record s { heap = stop_each s.rooms s.heap; rooms = [] }

  unfoldable pub run : List Event → System → System
  run [] s = s
  run (e ∷ es) s = run es (step e s)
