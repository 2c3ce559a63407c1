-- ===== src/Service/Overlap/Orderly.antt =====
-- Runs in which the requests for one room come one at a time (internal/service/service.go): no room
-- is lost, and the end of the app ends them all.
use go_live_transcription.Prelude.{
  ℕ, zero, suc, String, ◌≡◌, ◌≢◌, refl, subst, true, false, Option, none, some, [], nat_eq_iff,
  arith, Bool-cases, inl, inr,
}
use go_live_transcription.GoMap.{lookup, delete}
use go_live_transcription.Signaling.Messages.{
  HpbSettings, SigConnectResult, success, failure, retry, no_reconnect,
}
use go_live_transcription.Signaling.Connect.{Connected, ConnectError, connect}
use go_live_transcription.Service.Application.{RoomState, close_room}
use go_live_transcription.Service.Request.{
  Endpoints, Attempt, done, with_client, connection_failed, tries_failed,
}
use go_live_transcription.Signaling.Targets.{add_target}
use go_live_transcription.Service.Overlap.{
  Phase, looking, building, connecting, answered, Request, System, put, active, can_look, look,
  look_found, stop_each, install_in, attempt_ends, attempt_in, Event, looks, installs, attempts,
  leaves, cleans, moves, shuts_down, step,
}
use go_live_transcription.Service.Overlap.Invariant.{
  Inv, Tame, owner, Tame-Inv, rest-Inv, building-Inv, retry-Inv, delete-Inv, install-Inv,
}
use go_live_transcription.Service.Overlap.Rooms.{
  put-Tame, found_at-Inv, clean_at-Inv, leave_at-Inv, shuts_down-Inv,
}

look_found-Inv :
    (request : ℕ → Request) (o : Option ℕ) (i : ℕ) (s : System)
    → lookup (request i).token s.rooms ≡ o
    → ((j : ℕ) → active (s.phases j) ≡ true → (request j).token ≢ (request i).token)
    → Inv request s
    → Inv request (look_found o i (request i) s)
unfolding look_found
look_found-Inv request none i s e out v = elim (Bool-cases (request i).enable) [
  | inl b ↦ rw b (building-Inv request i s e out v)
  | inr b ↦ rw b (rest-Inv request i (answered done) s refl v)
]
look_found-Inv request (some p) i s e out v = found_at-Inv request (s.heap p).client.defunct p i s v

look-Inv :
    (request : ℕ → Request) (i : ℕ) (s : System)
    → ((j : ℕ) → active (s.phases j) ≡ true → (request j).token ≢ (request i).token)
    → Inv request s
    → Inv request (look i (request i) s)
unfolding look
look-Inv request i s out v = elim (Bool-cases (can_look (s.phases i))) [
  | inl b ↦ simp b (look_found-Inv request (lookup (request i).token s.rooms) i s refl out v)
  | inr b ↦ simp b v
]

-- How an attempt ends, by the result of `Connect`.
attempt_ends-Inv :
    (request : ℕ → Request) (o : SigConnectResult) (r : Connected) (p n m i : ℕ)
    (last : Option ConnectError) (s : System)
    → s.phases i ≡ connecting p m last
    → Inv request s
    → Inv request (attempt_ends o r p n i (request i) s)
unfolding attempt_ends close_room
attempt_ends-Inv request success r p n m i last s here v =
    let rs = with_client (add_target (request i).nc r.client) (s.heap p) in
    let heap = put p rs s.heap in
    rest-Inv request i (answered done) (record s { heap = heap }) refl
      (Tame-Inv request s heap (put-Tame p rs s.heap refl (λ h. h)) v)
attempt_ends-Inv request retry r p n m i last s here v =
    let rs = with_client r.client (s.heap p) in
    let heap = put p rs s.heap in
    retry-Inv request i p m n last r.error (record s { heap = heap }) here
      (Tame-Inv request s heap (put-Tame p rs s.heap refl (λ h. h)) v)
attempt_ends-Inv request failure r p n m i last s here v =
    let rs : RoomState = record (close_room (with_client r.client (s.heap p))) {
      running = false;
    } in
    let heap = put p rs s.heap in
    let tame : Tame s.heap heap = put-Tame p rs s.heap refl (λ h. absurd (ground (arith, h))) in
    let only = (v.linked i p m last here).2 in
    let stopped : (q : ℕ) → lookup (request i).token s.rooms ≡ some q → (heap q).running ≡ false =
      λ (q : ℕ) (l : lookup (request i).token s.rooms ≡ some q).
        ground (arith, only q l, nat_eq_iff q p) in
    rest-Inv request i (answered (connection_failed r.error))
      (record s { heap = heap; rooms = delete (request i).token s.rooms }) refl
      (delete-Inv request (request i).token (record s { heap = heap }) stopped
        (Tame-Inv request s heap tame v))

attempt_in-Inv :
    (hmac : String → String → String) (request : ℕ → Request) (x : Phase) (a : Attempt) (i : ℕ)
    (s : System)
    → s.phases i ≡ x
    → Inv request s
    → Inv request (attempt_in hmac x a i (request i) s)
unfolding attempt_in
attempt_in-Inv hmac request looking a i s e v = v
attempt_in-Inv hmac request building a i s e v = v
attempt_in-Inv hmac request (answered y) a i s e v = v
attempt_in-Inv hmac request (connecting p zero last) a i s e v =
    rest-Inv request i (answered (tries_failed last)) s refl v
attempt_in-Inv hmac request (connecting p (suc n) last) a i s e v =
    let r = connect hmac a.nonce a.dialed a.frames no_reconnect (s.heap p).client in
    attempt_ends-Inv request r.result r p n (suc n) i last s e v

install_in-Inv :
    (ends : Endpoints) (settings : HpbSettings) (request : ℕ → Request) (x : Phase) (i : ℕ)
    (s : System)
    → s.phases i ≡ x
    → Inv request s
    → Inv request (install_in ends settings x i (request i) s)
unfolding install_in
install_in-Inv ends settings request looking i s e v = v
install_in-Inv ends settings request building i s e v = install-Inv request ends settings i s e v
install_in-Inv ends settings request (connecting p n last) i s e v = v
install_in-Inv ends settings request (answered y) i s e v = v

-- The events of an orderly run: a request looks for its room only while no other request for the
-- same room is behind its look-up and not at its end.
abbrev pub Allowed : (ℕ → Request) → Event → System → Type 0
Allowed request (looks i) s =
    (j : ℕ) → active (s.phases j) ≡ true → (request j).token ≢ (request i).token
Allowed request (installs i) s = Unit {0}
Allowed request (attempts i a) s = Unit {0}
Allowed request (leaves token) s = Unit {0}
Allowed request (cleans token) s = Unit {0}
Allowed request (moves p client) s = Unit {0}
Allowed request shuts_down s = Unit {0}

-- The app before any request: no room, no loop runs, and every request is still to look.
abbrev pub Initial : System → Type 0
Initial s =
    (s.rooms ≡ []) × ((p : ℕ) → (s.heap p).running ≡ false) × ((i : ℕ) → s.phases i ≡ looking)

module _ (hmac : String → String → String) (ends : Endpoints) (settings : HpbSettings)
    (request : ℕ → Request) where
  -- The systems that an orderly run leads to.
  pub data Orderly (s : System) : System → Type 0 where
    here : Orderly s s
    next :
        (t : System) (e : Event)
        → Orderly s t
        → Allowed request e t
        → Orderly s (step hmac ends settings request e t)

  step-Inv :
      (e : Event) (s : System)
      → Allowed request e s
      → Inv request s
      → Inv request (step hmac ends settings request e s)
  unfolding step
  step-Inv (looks i) s a v = look-Inv request i s a v
  step-Inv (installs i) s a v = install_in-Inv ends settings request (s.phases i) i s refl v
  step-Inv (attempts i x) s a v = attempt_in-Inv hmac request (s.phases i) x i s refl v
  step-Inv (leaves token) s a v = leave_at-Inv request (lookup token s.rooms) s v
  step-Inv (cleans token) s a v = clean_at-Inv request (lookup token s.rooms) token s refl v
  step-Inv (moves p client) s a v =
      let rs = with_client client (s.heap p) in
      Tame-Inv request s (put p rs s.heap) (put-Tame p rs s.heap refl (λ h. h)) v
  step-Inv shuts_down s a v = shuts_down-Inv request s v

  Initial-Inv : (s : System) → Initial s → Inv request s
  unfolding lookup
  Initial-Inv s (none_there, still, all_look) = record {
    known = λ p r. absurd (ground (arith, r, still p));
    fresh = λ p b. still p;
    owned = λ t p e. absurd (ground (arith, subst (λ m. lookup t m ≡ some p) none_there e));
    gap = λ i e. absurd (ground (arith, e, all_look i));
    linked = λ i p n e c. absurd (ground (arith, c, all_look i));
    alone = λ i j a b f. absurd (ground (arith, a, all_look i));
  }

  Orderly-Inv : (s t : System) → Initial s → Orderly s t → Inv request t
  Orderly-Inv s _ h here = Initial-Inv s h
  Orderly-Inv s _ h (next t e o a) = step-Inv e t a (Orderly-Inv s t h o)

  -- While the requests for a room come one at a time, with any events of other rooms between their
  -- steps, a room whose loops run is in the map under its token, and when the app is shut down the
  -- loops of no room run.
  pub rooms_are_kept :
      (s t : System)
      → Initial s
      → Orderly s t
      → ((p : ℕ) → (t.heap p).running ≡ true → lookup (owner t.heap p) t.rooms ≡ some p)
        × ((p : ℕ) → ((step hmac ends settings request shuts_down t).heap p).running ≡ false)
  unfolding step lookup
  rooms_are_kept s t h o =
      let v = Orderly-Inv s t h o in
      let heap = stop_each t.rooms t.heap in
      let ended = shuts_down-Inv request t v in
      (
        v.known,
        λ p. elim (Bool-cases (heap p).running) [
          | inl r ↦ absurd (ground (arith, r, ended.known p r))
          | inr r ↦ r
        ],
      )
