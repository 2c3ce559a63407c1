-- ===== src/Service/Overlap/Rooms.antt =====
-- What the operations on single rooms keep, whatever requests are under way
-- (internal/service/service.go).
use go_live_transcription.Prelude.{
  ℕ, String, ◌==◌, ◌≡◌, refl, ◌∙◌, Bool, true, false, Option, none, some, [], ◌∷◌, if◌then◌else◌,
  nat_eq_iff, arith, Bool-cases, inl, inr,
}
use go_live_transcription.GoMap.{GoMap, lookup}
use go_live_transcription.Translation.Meta.{shutdown, stop}
use go_live_transcription.Service.Application.{RoomState, stop_room, close_room}
use go_live_transcription.Service.Request.{done, deferred, with_client}
use go_live_transcription.Signaling.Targets.{add_target, remove_target}
use go_live_transcription.Service.Overlap.{
  answered, Request, System, put, leave_at, clean_at, clean_if, found_at, stop_each,
}
use go_live_transcription.Service.Overlap.Invariant.{
  Inv, Tame, owner, Tame-Inv, rest-Inv, delete-Inv,
}

-- A room is replaced by one with the same token, whose loops run only if they did.
pub put-Tame :
    (p : ℕ) (rs : RoomState) (heap : ℕ → RoomState)
    → rs.meta.room_token ≡ owner heap p
    → (rs.running ≡ true → (heap p).running ≡ true)
    → Tame heap (put p rs heap)
put-Tame p rs heap o r q =
    (ground (arith, o, nat_eq_iff q p), λ h. ground (arith, h, r, nat_eq_iff q p))

pub close_room-same :
    (rs : RoomState)
    → ((close_room rs).meta.room_token ≡ rs.meta.room_token)
      × ((close_room rs).running ≡ true → rs.running ≡ true)
unfolding close_room
close_room-same rs = (refl, λ h. h)

stop_room-still :
    (rs : RoomState)
    → ((stop_room rs).meta.room_token ≡ rs.meta.room_token) × ((stop_room rs).running ≡ false)
unfolding stop_room shutdown stop
stop_room-still rs = (refl, refl)

stop_each-Tame : (rooms : GoMap ℕ) (heap : ℕ → RoomState) → Tame heap (stop_each rooms heap)
unfolding stop_each
stop_each-Tame [] heap p = (refl, λ h. h)
stop_each-Tame ((token, q) ∷ rooms) heap p =
    let rs = heap q in
    let ended = stop_room (close_room rs) in
    let still = stop_room-still (close_room rs) in
    let here : Tame heap (put q ended heap) =
      put-Tame q ended heap (still.0 ∙ (close_room-same rs).0)
        (λ h. absurd (ground (arith, h, still))) in
    let rest = stop_each-Tame rooms (put q ended heap) p in
    (rest.0 ∙ (here p).0, λ h. (here p).1 (rest.1 h))

pub stop_each-stops :
    (t : String) (p : ℕ) (rooms : GoMap ℕ) (heap : ℕ → RoomState)
    → lookup t rooms ≡ some p
    → (stop_each rooms heap p).running ≡ false
unfolding stop_each lookup
stop_each-stops t p [] heap e = absurd (ground (arith, e))
stop_each-stops t p ((token, q) ∷ rooms) heap e =
    let ended = stop_room (close_room (heap q)) in
    let still = stop_room-still (close_room (heap q)) in
    let next = put q ended heap in
    elim (Bool-cases (token == t)) [
      | inl here ↦
          let q_is_p : q ≡ p = ground (arith, e, here) in
          let off : (next p).running ≡ false = ground (arith, q_is_p, nat_eq_iff p q, still) in
          ground
            (arith, off, stop_each-Tame rooms next p, Bool-cases (stop_each rooms next p).running)
      | inr there ↦ stop_each-stops t p rooms next (ground (arith, e, there))
    ]

clean_if-Inv :
    (request : ℕ → Request) (defunct : Bool) (p : ℕ) (token : String) (s : System)
    → lookup token s.rooms ≡ some p
    → Inv request s
    → Inv request (clean_if defunct p token s)
unfolding clean_if
clean_if-Inv request false p token s e v = v
clean_if-Inv request true p token s e v =
    let still = stop_room-still (s.heap p) in
    let heap = put p (stop_room (s.heap p)) s.heap in
    let tame : Tame s.heap heap =
      put-Tame p (stop_room (s.heap p)) s.heap still.0 (λ h. absurd (ground (arith, h, still))) in
    let stopped : (q : ℕ) → lookup token s.rooms ≡ some q → (heap q).running ≡ false =
      λ (q : ℕ) (l : lookup token s.rooms ≡ some q). ground (arith, e, l, still, nat_eq_iff q p) in
    delete-Inv request token (record s { heap = heap }) stopped (Tame-Inv request s heap tame v)

-- A room that the map has under the token and whose client is defunct leaves the map.
pub clean_at-Inv :
    (request : ℕ → Request) (o : Option ℕ) (token : String) (s : System)
    → lookup token s.rooms ≡ o
    → Inv request s
    → Inv request (clean_at o token s)
unfolding clean_at
clean_at-Inv request none token s e v = v
clean_at-Inv request (some p) token s e v =
    clean_if-Inv request (s.heap p).client.defunct p token s e v

pub leave_at-Inv :
    (request : ℕ → Request) (o : Option ℕ) (s : System) → Inv request s → Inv request (leave_at o s)
unfolding leave_at
leave_at-Inv request none s v = v
leave_at-Inv request (some p) s v =
    let same = close_room-same (s.heap p) in
    Tame-Inv request s (put p (close_room (s.heap p)) s.heap)
      (put-Tame p (close_room (s.heap p)) s.heap same.0 same.1) v

pub shuts_down-Inv :
    (request : ℕ → Request) (s : System)
    → Inv request s
    → Inv request (record s { heap = stop_each s.rooms s.heap; rooms = [] })
unfolding lookup
shuts_down-Inv request s v =
    let heap = stop_each s.rooms s.heap in
    let w = Tame-Inv request s heap (stop_each-Tame s.rooms s.heap) v in
    record {
      known = λ p r.
          absurd (ground (arith, r, w.known p r, stop_each-stops (owner heap p) p s.rooms s.heap));
      fresh = w.fresh;
      owned = λ t p e. absurd (ground (arith, e));
      gap = λ i e. refl;
      linked = λ i p n e c.
          let (o, b, only) = w.linked i p n e c in (o, b, λ r l. absurd (ground (arith, l)));
      alone = w.alone;
    }

pub found_at-Inv :
    (request : ℕ → Request) (defunct : Bool) (p i : ℕ) (s : System)
    → Inv request s
    → Inv request (found_at defunct p i (request i) s)
unfolding found_at
found_at-Inv request true p i s v =
    rest-Inv request i (answered (if (request i).enable then deferred else done)) s refl v
found_at-Inv request false p i s v =
    let q = request i in
    let rs = s.heap p in
    let client = if q.enable then add_target q.nc rs.client else remove_target q.nc rs.client in
    let heap = put p (with_client client rs) s.heap in
    rest-Inv request i (answered done) (record s { heap = heap }) refl
      (Tame-Inv request s heap (put-Tame p (with_client client rs) s.heap refl (λ h. h)) v)
