-- ===== src/Signaling/Connections.antt =====
-- What `Connect` of internal/signaling/client.go returns, and what it has done by then.
use go_live_transcription.Prelude.{
  ◌+◌, ◌%◌, ◌^◌, ◌<◌, String, Bool, true, false, ◌≡◌, ◌≢◌, refl, sym, ap, ◌∙◌, none, some, List, [],
  ◌∷◌, ◌++◌, length, arith, append_assoc,
}
use go_live_transcription.GoMap.{is_empty}
use go_live_transcription.Signaling.Messages.{
  SignalingMessage, HelloMessage, success, failure, retry, no_reconnect,
}
use go_live_transcription.Signaling.Client.{SpreedClient, send_message}
use go_live_transcription.Signaling.Connect.{
  Frames, Connected, no_hello, send_hello, greeted, reaction, greet, handshake, complete,
  open_session, connect, in_call_message, join_message, internal_hello,
}
use go_live_transcription.Signaling.Delivery.{stamped}
use go_live_transcription.Signaling.Handshake.{
  AllSkipped, frames_of, handshake-greets, handshake-gives_up, handshake-conn, handshake_unchanged,
  Finished, finish_connect-Finished, send_opened,
}

module _ (hmac : String → String → String) (nonce : String) where
  connect-opens :
      (fs : Frames) (c : SpreedClient)
      → c.conn ≡ false
      → connect hmac nonce true fs no_reconnect c
        ≡ complete (handshake 10 fs (send_hello hmac nonce (record c { conn = true })))
  unfolding connect open_session
  connect-opens fs c fresh = ground arith

  -- The new session of a client: it is live, watched and in the server's session, and has sent
  -- three messages.
  pub record Joined (c : SpreedClient) (h : HelloMessage) (r : Connected) : Type 0 where
    pub reported : (r.result ≡ success) × (r.error ≡ none)
    pub session : (r.client.session_id ≡ h.session_id) × (r.client.resume_id ≡ h.resume_id)
    pub live : (r.client.defunct ≡ false) × (r.client.cancel ≡ true) × (r.client.conn ≡ true)
    pub sent :
        r.client.sent
        ≡ c.sent
          ++ stamped c.msg_id (
              internal_hello hmac nonce c
              ∷ in_call_message
              ∷ join_message c.room_token h.session_id
              ∷ [])
    pub targets : r.client.targets ≡ c.targets
    pub timer : is_empty c.targets ≡ true → r.client.deferred_close_timer ≢ none

  -- The client at the label `connected`.
  abbrev welcomed : SpreedClient → HelloMessage → SpreedClient
  welcomed c h = record c {
    conn = true;
    session_id = h.session_id;
    resume_id = h.resume_id;
    msg_id = (c.msg_id + 1) % 2 ^ 64;
    sent =
        c.sent ++ record (internal_hello hmac nonce c) { id = some ((c.msg_id + 1) % 2 ^ 64) } ∷ [];
  }

  Finished-Joined :
      (c : SpreedClient) (h : HelloMessage) {d : SpreedClient}
      → Finished (welcomed c h) d
      → Joined c h (record { result = success; error = none; client = d })
  Finished-Joined c h f = record {
    reported = (refl, refl);
    session = f.session;
    live = f.live;
    sent = f.sent ∙ append_assoc c.sent _ _;
    targets = f.targets;
    timer = f.timer;
  }

  -- A first connection succeeds where the dial does and the server's hello comes behind at most nine
  -- messages that are neither an error nor a bye nor a hello: the client takes the hello's session,
  -- is live and watched, has sent a hello, an in-call and a join message with consecutive numbers
  -- and nothing else, has the targets that it had, and a deferred close timer if it has none.
  pub connect-Joined :
      (pre : List SignalingMessage) (msg : SignalingMessage) (h : HelloMessage) (rest : Frames)
      (c : SpreedClient)
      → c.conn ≡ false
      → AllSkipped pre
      → length pre < 10
      → reaction msg ≡ greet
      → msg.hello ≡ some h
      → Joined c h (connect hmac nonce true (frames_of pre (some msg ∷ rest)) no_reconnect c)
  unfolding greeted send_hello complete
  connect-Joined pre msg h rest c fresh sk short g body =
      let d : SpreedClient = record c { conn = true } in
      rw
        (
          connect-opens _ c fresh,
          handshake-greets 10 pre msg rest _ sk short g,
          body,
          send_opened (internal_hello hmac nonce c) d refl,
        )
        (Finished-Joined c h (finish_connect-Finished (welcomed c h) refl))

  -- A server that keeps sending messages to be passed over is given up after ten, with an error.
  pub connect-gives_up :
      (pre : List SignalingMessage) (rest : Frames) (c : SpreedClient)
      → c.conn ≡ false
      → AllSkipped pre
      → length pre ≡ 10
      → let r = connect hmac nonce true (frames_of pre rest) no_reconnect c in
        (r.result ≡ failure) × (r.error ≡ some no_hello)
  unfolding complete
  connect-gives_up pre rest c fresh sk ten =
      rw (connect-opens _ c fresh, handshake-gives_up 10 pre rest _ sk ten) (refl, refl)

  complete-conn : (r : Connected) → r.client.conn ≡ true → (complete r).client.conn ≡ true
  unfolding complete
  complete-conn r h = ground (arith, h, finish_connect-Finished r.client h)

  connect-conn :
      (fs : Frames) (c : SpreedClient)
      → c.conn ≡ false
      → (connect hmac nonce true fs no_reconnect c).client.conn ≡ true
  unfolding send_hello
  connect-conn fs c fresh = rw (connect-opens fs c fresh) (
      complete-conn _ (
        handshake-conn 10 fs _
        ∙ unfold send_message in
          ap (λ (d : SpreedClient). d.conn)
            (send_opened (internal_hello hmac nonce c) (record c { conn = true }) refl)))

  already_connected :
      (dialed : Bool) (fs : Frames) (c : SpreedClient)
      → c.conn ≡ true
      → connect hmac nonce dialed fs no_reconnect c
        ≡ record { result = success; error = none; client = c }
  unfolding connect
  already_connected dialed fs c h = ground arith

  complete_failed :
      (r : Connected) → (complete r).result ≡ retry → (complete r ≡ r) × (r.result ≢ success)
  unfolding complete
  complete_failed r h = (ground arith, ground arith)

  send_hello_keeps :
      (c : SpreedClient)
      → ((send_hello hmac nonce c).cancel ≡ c.cancel)
        × ((send_hello hmac nonce c).session_id ≡ c.session_id)
  unfolding send_hello send_message
  send_hello_keeps c = ground arith

  -- The socket stays open when the handshake asks for a retry (the server refused the join), so the
  -- next attempt reports success at once: whatever the network does, it leaves the client as the
  -- first attempt left it, with no monitor and without the session of a hello.
  pub retry_reports_success :
      (fs fs' : Frames) (dialed : Bool) (c : SpreedClient)
      → c.conn ≡ false
      → c.cancel ≡ false
      → (connect hmac nonce true fs no_reconnect c).result ≡ retry
      → let d = (connect hmac nonce true fs no_reconnect c).client in
        (connect hmac nonce dialed fs' no_reconnect d
          ≡ record { result = success; error = none; client = d })
        × (d.cancel ≡ false)
        × (d.session_id ≡ c.session_id)
  retry_reports_success fs fs' dialed c fresh idle again =
      let opened = connect-opens fs c fresh in
      let first = handshake 10 fs (send_hello hmac nonce (record c { conn = true })) in
      let asked : (complete first).result ≡ retry =
        sym (ap (λ (r : Connected). r.result) opened) ∙ again in
      let (kept, unsuccessful) = complete_failed first asked in
      let same = opened ∙ kept in
      let unchanged = handshake_unchanged 10 fs _ unsuccessful in
      let (cancel, session) = send_hello_keeps (record c { conn = true }) in
      (
        already_connected dialed fs' _ (connect-conn fs c fresh),
        rw same (ap (λ (d : SpreedClient). d.cancel) unchanged ∙ cancel ∙ idle),
        rw same (ap (λ (d : SpreedClient). d.session_id) unchanged ∙ session),
      )
