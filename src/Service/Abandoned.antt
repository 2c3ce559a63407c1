-- ===== src/Service/Abandoned.antt =====
-- How a request for a new call ends, and the room that a failed one leaves behind
-- (`TranscriptReq` of internal/service/service.go).
use go_live_transcription.Prelude.{
  ℕ, zero, suc, String, eq_refl, ◌≡◌, refl, Bool, true, false, Option, none, some, arith,
}
use go_live_transcription.GoMap.{lookup, insert, has}
use go_live_transcription.GoMap.Laws.{lookup-insert, has-insert, has-delete}
use go_live_transcription.Signaling.Messages.{
  HpbSettings, SigConnectResult, success, failure, retry, no_reconnect,
}
use go_live_transcription.Signaling.Client.{SpreedClient, new_spreed_client}
use go_live_transcription.Signaling.Targets.{add_target}
use go_live_transcription.Signaling.Client.{cancel_deferred_close}
use go_live_transcription.Signaling.Connect.{
  Frames, ConnectError, dial_failed, Connected, connect, reset_session,
}
use go_live_transcription.Service.Application.{RoomState, Application}
use go_live_transcription.Service.Request.{
  Answer, done, connection_failed, tries_failed, Endpoints, Attempt, request_in_room, new_room,
  connect_round, connect_loop, start_call, request_found, transcript_req, with_client,
}

-- Whether a request for a new call that ends like this leaves its room in the map.
abbrev pub keeps_room : Answer → Bool
keeps_room (connection_failed e) = false
keeps_room _ = true

module _ (hmac : String → String → String) where
  round-keeps :
      (result : SigConnectResult) (r : Connected) (token nc : String) (rs : RoomState)
      (app : Application) (rest : Answer × Application)
      → has token rest.1.rooms ≡ keeps_room rest.0
      → let end = connect_round result r token nc rs app rest in
        has token end.1.rooms ≡ keeps_room end.0
  unfolding connect_round
  round-keeps success r token nc rs app rest h =
      let c = add_target nc r.client in
      ground (arith, has-insert token token (with_client c rs) app.rooms, eq_refl token)
  round-keeps failure r token nc rs app rest h =
      ground (arith, has-delete token token app.rooms, eq_refl token)
  round-keeps retry r token nc rs app rest h = h

  loop-keeps :
      (tries : ℕ) (attempts : ℕ → Attempt) (last : Option ConnectError) (token nc : String)
      (rs : RoomState) (app : Application)
      → let end = connect_loop hmac tries attempts last token nc rs app in
        has token end.1.rooms ≡ keeps_room end.0
  unfolding connect_loop
  loop-keeps zero attempts last token nc rs app =
      ground (arith, has-insert token token rs app.rooms, eq_refl token)
  loop-keeps (suc tries) attempts last token nc rs app =
      let x = attempts tries in
      let r = connect hmac x.nonce x.dialed x.frames no_reconnect rs.client in
      let rest = connect_loop hmac tries attempts r.error token nc (with_client r.client rs) app in
      round-keeps r.result r token nc rs app rest
        (loop-keeps tries attempts r.error token nc (with_client r.client rs) app)

  -- A request for a call that has no room, made while the settings of the signaling server are
  -- known: the room is in the map afterwards unless the request ends with a refused connection. In
  -- particular it is there when the request gives up after five attempts.
  pub transcript_req-keeps :
      (fetched : Option HpbSettings) (attempts : ℕ → Attempt) (ends : Endpoints)
      (token nc lang : String) (settings : HpbSettings) (app : Application)
      → lookup token app.rooms ≡ none
      → app.hpb_settings ≡ some settings
      → let end = transcript_req hmac fetched attempts ends token nc lang true app in
        has token end.1.rooms ≡ keeps_room end.0
  unfolding transcript_req request_found start_call
  transcript_req-keeps fetched attempts ends token nc lang settings app e s =
      let rs = new_room ends settings token lang in
      rw (e, s)
        (loop-keeps 5 attempts none token nc rs
          (record app { hpb_settings = some settings; rooms = insert token rs app.rooms }))

  dial-fails :
      (frames : Frames) (nonce : String) (c : SpreedClient)
      → c.conn ≡ false
      → connect hmac nonce false frames no_reconnect c
        ≡ record { result = retry; error = some dial_failed; client = c }
  unfolding connect reset_session
  dial-fails frames nonce c h = rw (h) refl

  loop-fails :
      (tries : ℕ) (attempts : ℕ → Attempt) (last : Option ConnectError) (token nc : String)
      (rs : RoomState) (app : Application)
      → ((n : ℕ) → (attempts n).dialed ≡ false)
      → rs.client.conn ≡ false
      → connect_loop hmac (suc tries) attempts last token nc rs app
        ≡ (tries_failed (some dial_failed), record app { rooms = insert token rs app.rooms })
  unfolding connect_loop connect_round
  loop-fails zero attempts last token nc rs app h c =
      let x = attempts 0 in rw (h 0, dial-fails x.frames x.nonce rs.client c) refl
  loop-fails (suc tries) attempts last token nc rs app h c =
      let x = attempts (suc tries) in
      rw (h (suc tries), dial-fails x.frames x.nonce rs.client c)
        (loop-fails tries attempts (some dial_failed) token nc rs app h c)

  request-abandoned :
      (fetched : Option HpbSettings) (attempts : ℕ → Attempt) (ends : Endpoints)
      (token nc lang : String) (settings : HpbSettings) (app : Application)
      → lookup token app.rooms ≡ none
      → app.hpb_settings ≡ some settings
      → ((n : ℕ) → (attempts n).dialed ≡ false)
      → let rs = new_room ends settings token lang in
        let rooms = insert token rs app.rooms in
        transcript_req hmac fetched attempts ends token nc lang true app ≡ (
          tries_failed (some dial_failed),
          record app { hpb_settings = some settings; rooms = insert token rs rooms },
        )
  unfolding transcript_req request_found start_call new_spreed_client
  request-abandoned fetched attempts ends token nc lang settings app e s h =
      let rs = new_room ends settings token lang in
      rw (e, s)
        (loop-fails 4 attempts none token nc rs
          (record app { hpb_settings = some settings; rooms = insert token rs app.rooms }) h refl)

  request_in_room-live :
      (nc token : String) (rs : RoomState) (app : Application)
      → rs.client.defunct ≡ false
      → request_in_room true token nc rs app ≡ (
        done,
        record app { rooms = insert token (with_client (add_target nc rs.client) rs) app.rooms },
      )
  unfolding request_in_room
  request_in_room-live nc token rs app d = rw (d) refl

  request-live :
      (fetched : Option HpbSettings) (attempts : ℕ → Attempt) (ends : Endpoints)
      (token nc lang : String) (rs : RoomState) (app : Application)
      → lookup token app.rooms ≡ some rs
      → rs.client.defunct ≡ false
      → transcript_req hmac fetched attempts ends token nc lang true app ≡ (
        done,
        record app { rooms = insert token (with_client (add_target nc rs.client) rs) app.rooms },
      )
  unfolding transcript_req request_found
  request-live fetched attempts ends token nc lang rs app e d =
      rw (e) (request_in_room-live nc token rs app d)

  add_target-conn : (nc : String) (c : SpreedClient) → (add_target nc c).conn ≡ c.conn
  unfolding add_target cancel_deferred_close
  add_target-conn nc c = ground arith

  -- A request for a call that has no room, made while the settings of the signaling server are
  -- known, fails when none of its five dials succeeds, but its room stays. The next request for that
  -- room then succeeds, and the room that it leaves has a client without a connection.
  pub abandoned_room :
      (fetched later : Option HpbSettings) (attempts again : ℕ → Attempt) (ends : Endpoints)
      (token nc other lang : String) (settings : HpbSettings) (app : Application)
      → lookup token app.rooms ≡ none
      → app.hpb_settings ≡ some settings
      → ((n : ℕ) → (attempts n).dialed ≡ false)
      → let first = transcript_req hmac fetched attempts ends token nc lang true app in
        let second = transcript_req hmac later again ends token other lang true first.1 in
        (first.0 ≡ tries_failed (some dial_failed))
        × (second.0 ≡ done)
        × ((rs : RoomState) × (lookup token second.1.rooms ≡ some rs) × (rs.client.conn ≡ false))
  unfolding new_spreed_client
  abandoned_room fetched later attempts again ends token nc other lang settings app e s h =
      let rs = new_room ends settings token lang in
      let rooms = insert token rs (insert token rs app.rooms) in
      let left : Application = record app { hpb_settings = some settings; rooms = rooms } in
      let joined = with_client (add_target other rs.client) rs in
      let here : lookup token rooms ≡ some rs =
        ground (arith, eq_refl token, lookup-insert token token rs (insert token rs app.rooms)) in
      rw
        (
          request-abandoned fetched attempts ends token nc lang settings app e s h,
          request-live later again ends token other lang rs left here refl,
        )
        (
          refl,
          refl,
          (
            joined,
            ground (arith, eq_refl token, lookup-insert token token joined rooms),
            add_target-conn other rs.client,
          ),
        )
