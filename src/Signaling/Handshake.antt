-- ===== src/Signaling/Handshake.antt =====
-- What `Connect` of internal/signaling/client.go returns, and what it has done by then.
use go_live_transcription.Prelude.{
  ℕ, zero, suc, ◌+◌, ◌%◌, ◌^◌, ◌<◌, true, false, ◌≡◌, ◌≢◌, refl, ap, ◌∙◌, none, some, List, [], ◌∷◌,
  ◌++◌, length, arith, append_assoc,
}
use go_live_transcription.GoMap.{is_empty}
use go_live_transcription.Signaling.Messages.{SignalingMessage, success, failure}
use go_live_transcription.Signaling.Client.{SpreedClient, send_message, start_if_no_target}
use go_live_transcription.Signaling.Connect.{
  Frames, no_hello, send_in_call, send_join, greeted, reaction, skip, greet, handshake,
  finish_connect, in_call_message, join_message,
}
use go_live_transcription.Signaling.Delivery.{stamped}

-- Messages that the handshake passes over: a welcome, or a type that it does not know.
abbrev pub AllSkipped : List SignalingMessage → Type 0
AllSkipped [] = Unit {0}
AllSkipped (m ∷ ms) = (reaction m ≡ skip) × AllSkipped ms

abbrev pub frames_of : List SignalingMessage → Frames → Frames
frames_of [] rest = rest
frames_of (m ∷ ms) rest = some m ∷ frames_of ms rest

-- The loop reads a hello behind fewer messages to skip than it has rounds.
pub handshake-greets :
    (n : ℕ) (pre : List SignalingMessage) (hello : SignalingMessage) (rest : Frames)
    (c : SpreedClient)
    → AllSkipped pre
    → length pre < n
    → reaction hello ≡ greet
    → handshake n (frames_of pre (some hello ∷ rest)) c
      ≡ record { result = success; error = none; client = greeted hello.hello c }
unfolding handshake
handshake-greets zero pre hello rest c sk h g = absurd (omega arith)
handshake-greets (suc n) [] hello rest c sk h g = rw (g, handshake)
handshake-greets (suc n) (m ∷ pre) hello rest c sk h g =
    rw (sk.0, handshake) (handshake-greets n pre hello rest c sk.1 (omega arith) g)

-- With as many messages to skip as it has rounds it gives up.
pub handshake-gives_up :
    (n : ℕ) (pre : List SignalingMessage) (rest : Frames) (c : SpreedClient)
    → AllSkipped pre
    → length pre ≡ n
    → handshake n (frames_of pre rest) c
      ≡ record { result = failure; error = some no_hello; client = c }
unfolding handshake
handshake-gives_up zero [] rest c sk h = refl
handshake-gives_up zero (m ∷ pre) rest c sk h = absurd (omega arith)
handshake-gives_up (suc n) [] rest c sk h = absurd (omega arith)
handshake-gives_up (suc n) (m ∷ pre) rest c sk h =
    rw (sk.0, handshake) (handshake-gives_up n pre rest c sk.1 (omega arith))

-- A failed or retried handshake leaves the socket open.
pub handshake-conn :
    (n : ℕ) (fs : Frames) (c : SpreedClient) → (handshake n fs c).client.conn ≡ c.conn
unfolding handshake greeted
handshake-conn zero fs c = refl
handshake-conn (suc n) [] c = refl
handshake-conn (suc n) (none ∷ fs) c = refl
handshake-conn (suc n) (some msg ∷ fs) c = ground (arith, handshake-conn n fs c)

-- Nor does it change the client at all.
pub handshake_unchanged :
    (n : ℕ) (fs : Frames) (c : SpreedClient)
    → (handshake n fs c).result ≢ success
    → (handshake n fs c).client ≡ c
unfolding handshake
handshake_unchanged zero fs c h = refl
handshake_unchanged (suc n) [] c h = refl
handshake_unchanged (suc n) (none ∷ fs) c h = refl
handshake_unchanged (suc n) (some msg ∷ fs) c h = ground (arith, handshake_unchanged n fs c)

pub send_opened :
    (m : SignalingMessage) (c : SpreedClient)
    → c.conn ≡ true
    → send_message m c ≡ record c {
      msg_id = (c.msg_id + 1) % 2 ^ 64;
      sent = c.sent ++ record m { id = some ((c.msg_id + 1) % 2 ^ 64) } ∷ [];
    }
unfolding send_message
send_opened m c h = ground arith

-- What the code at `connected` does to an open client.
pub record Finished (c d : SpreedClient) : Type 0 where
  pub session : (d.session_id ≡ c.session_id) × (d.resume_id ≡ c.resume_id)
  pub live : (d.defunct ≡ false) × (d.cancel ≡ true) × (d.conn ≡ true)
  pub sent :
      d.sent
      ≡ c.sent ++ stamped c.msg_id (in_call_message ∷ join_message c.room_token c.session_id ∷ [])
  pub targets : d.targets ≡ c.targets
  pub timer : is_empty c.targets ≡ true → d.deferred_close_timer ≢ none

start_if_no_target_lem :
    (c : SpreedClient)
    → let d = start_if_no_target c in
      (d.session_id ≡ c.session_id)
      × (d.resume_id ≡ c.resume_id)
      × (d.defunct ≡ c.defunct)
      × (d.cancel ≡ c.cancel)
      × (d.conn ≡ c.conn)
      × (d.sent ≡ c.sent)
      × (d.targets ≡ c.targets)
      × (is_empty c.targets ≡ true → d.deferred_close_timer ≢ none)
unfolding start_if_no_target
start_if_no_target_lem c = ground arith

joined :
    (c : SpreedClient)
    → c.conn ≡ true
    → send_join (send_in_call (record c { defunct = false; cancel = true })) ≡ record c {
      defunct = false;
      cancel = true;
      msg_id = ((c.msg_id + 1) % 2 ^ 64 + 1) % 2 ^ 64;
      sent =
          c.sent
          ++ stamped c.msg_id (in_call_message ∷ join_message c.room_token c.session_id ∷ []);
    }
unfolding send_in_call send_join
joined c h =
    let d : SpreedClient = record c { defunct = false; cancel = true } in
    ap send_join (send_opened in_call_message d h)
    ∙ send_opened (join_message c.room_token c.session_id) _ h
    ∙ ap (λ sent. record d { msg_id = ((c.msg_id + 1) % 2 ^ 64 + 1) % 2 ^ 64; sent = sent })
        (append_assoc c.sent _ _)

pub finish_connect-Finished : (c : SpreedClient) → c.conn ≡ true → Finished c (finish_connect c)
unfolding finish_connect
finish_connect-Finished c h =
    let f = start_if_no_target_lem _ in
    rw (joined c h, finish_connect)
      (record {
        session = (f.0, f.1);
        live = (f.2, f.3, f.4 ∙ h);
        sent = f.5;
        targets = f.6;
        timer = f.7;
      })
