-- ===== src/Service/Overlap/Lost.antt =====
-- Two requests for a room that both find none (`TranscriptReq` of internal/service/service.go).
use go_live_transcription.Prelude.{
  ℕ, ◌+◌, ◌<◌, String, eq_iff, eq_refl, ◌≡◌, ◌≢◌, refl, ◌∙◌, ap, subst, true, false, none, [], ◌∷◌,
  nat_eq, nat_eq_iff, arith,
}
use go_live_transcription.GoMap.{GoMap, lookup, insert}
use go_live_transcription.Signaling.Messages.{HpbSettings}
use go_live_transcription.Service.Application.{RoomState, stop_room, close_room}
use go_live_transcription.Service.Request.{Endpoints, new_room}
use go_live_transcription.Service.Overlap.{
  looking, building, connecting, Request, System, put, look, look_found, install_in, stop_each,
  looks, installs, shuts_down, step, run,
}

-- The rooms of the map are given out.
abbrev pub AllBelow : ℕ → GoMap ℕ → Type 0
AllBelow n [] = Unit {0}
AllBelow n ((token, p) ∷ rooms) = (p < n) × AllBelow n rooms

-- The pointer stands for no room of the map.
abbrev pub Absent : ℕ → GoMap ℕ → Type 0
Absent p [] = Unit {0}
Absent p ((token, q) ∷ rooms) = (nat_eq p q ≡ false) × Absent p rooms

pub stop_each-Absent :
    (p : ℕ) (rooms : GoMap ℕ) (heap : ℕ → RoomState)
    → Absent p rooms
    → stop_each rooms heap p ≡ heap p
unfolding stop_each
stop_each-Absent p [] heap a = refl
stop_each-Absent p ((token, q) ∷ rooms) heap a =
    stop_each-Absent p rooms (put q (stop_room (close_room (heap q))) heap) a.1 ∙ rw (a.0) refl

insert-Absent :
    (p n : ℕ) (token : String) (rooms : GoMap ℕ)
    → nat_eq p n ≡ false
    → Absent p rooms
    → Absent p (insert token n rooms)
unfolding insert
insert-Absent p n token [] h a = (h, tt)
insert-Absent p n token ((k, q) ∷ rooms) h a =
    ground (arith, h, a, insert-Absent p n token rooms h a.1)

AllBelow-Absent : (n : ℕ) (rooms : GoMap ℕ) → AllBelow n rooms → Absent n rooms
AllBelow-Absent n [] b = tt
AllBelow-Absent n ((k, q) ∷ rooms) b = ground (arith, b, AllBelow-Absent n rooms b.1)

overwrite-Absent :
    (n : ℕ) (token : String) (rooms : GoMap ℕ)
    → Absent n rooms
    → Absent n (insert token (n + 1) (insert token n rooms))
unfolding insert
overwrite-Absent n token [] a = ground (arith, eq_refl token)
overwrite-Absent n token ((k, q) ∷ rooms) a =
    ground (arith, a, eq_iff k token, eq_refl token, overwrite-Absent n token rooms a.1)

module _ (hmac : String → String → String) (ends : Endpoints) (settings : HpbSettings)
    (request : ℕ → Request) where
  -- A look-up that finds no room, by a request for transcripts.
  looks_none :
      (i : ℕ) (s : System)
      → s.phases i ≡ looking
      → lookup (request i).token s.rooms ≡ none
      → (request i).enable ≡ true
      → step hmac ends settings request (looks i) s ≡ record s { phases = put i building s.phases }
  unfolding step look look_found
  looks_none i s p e n = rw (p, e, n) refl

  installs_building :
      (i : ℕ) (s : System)
      → s.phases i ≡ building
      → let q = request i in
        step hmac ends settings request (installs i) s ≡ record s {
          heap = put s.next (new_room ends settings q.token q.lang) s.heap;
          rooms = insert q.token s.next s.rooms;
          next = s.next + 1;
          phases = put i (connecting s.next 5 none) s.phases;
        }
  unfolding step install_in
  installs_building i s p = rw p refl

  shuts_down-Absent :
      (p : ℕ) (s : System)
      → Absent p s.rooms
      → let t = step hmac ends settings request shuts_down s in
        (t.rooms ≡ []) × (t.heap p ≡ s.heap p)
  unfolding step
  shuts_down-Absent p s a = (refl, stop_each-Absent p s.rooms s.heap a)

  -- Two requests for transcripts of the same room, which is not in the map, with both look-ups before
  -- either puts its room there: the first room is lost. When the app is shut down, no room is in the
  -- map, and the loops of that room run on.
  pub overlapping_requests_lose_a_room :
      (i j : ℕ) (s : System)
      → i ≢ j
      → (request i).token ≡ (request j).token
      → (request i).enable ≡ true
      → (request j).enable ≡ true
      → s.phases i ≡ looking
      → s.phases j ≡ looking
      → lookup (request i).token s.rooms ≡ none
      → AllBelow s.next s.rooms
      → let t =
          run hmac ends settings request
            (looks i ∷ looks j ∷ installs i ∷ installs j ∷ shuts_down ∷ [])
            s in
        (t.rooms ≡ []) × ((t.heap s.next).running ≡ true)
  unfolding run
  overlapping_requests_lose_a_room i j s ne same ei ej pi pj free below =
      let qi = request i in
      let qj = request j in
      let apart : nat_eq j i ≡ false = ground (arith, ne, nat_eq_iff j i) in
      let s1 : System = record s { phases = put i building s.phases } in
      let s2 : System = record s { phases = put j building s1.phases } in
      let s3 : System = record s {
        heap = put s.next (new_room ends settings qi.token qi.lang) s.heap;
        rooms = insert qi.token s.next s.rooms;
        next = s.next + 1;
        phases = put i (connecting s.next 5 none) s2.phases;
      } in
      let p1 : s1.phases j ≡ looking = ground (arith, apart, pj) in
      let p2 : s2.phases i ≡ building = ground (arith, nat_eq_iff i j) in
      let p3 : s3.phases j ≡ building = ground (arith, apart) in
      let e1 = looks_none i s pi free ei in
      let e2 = looks_none j s1 p1 (subst (λ k. lookup k s.rooms ≡ none) same free) ej in
      let e3 = installs_building i s2 p2 in
      let e4 = installs_building j s3 p3 in
      let s4 : System = record s3 {
        heap = put s3.next (new_room ends settings qj.token qj.lang) s3.heap;
        rooms = insert qj.token s3.next s3.rooms;
        next = s3.next + 1;
        phases = put j (connecting s3.next 5 none) s3.phases;
      } in
      let gone : Absent s.next s4.rooms =
        subst (λ k. Absent s.next (insert k (s.next + 1) s3.rooms)) same
          (overwrite-Absent s.next qi.token s.rooms (AllBelow-Absent s.next s.rooms below)) in
      let end = shuts_down-Absent s.next s4 gone in
      let runs : (s4.heap s.next).running ≡ true = ground (arith, nat_eq_iff s.next (s.next + 1)) in
      rw (e1, e2, e3, e4) (end.0, ap (λ (rs : RoomState). rs.running) end.1 ∙ runs)
