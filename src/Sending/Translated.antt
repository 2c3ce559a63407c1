-- ===== src/Sending/Translated.antt =====
-- `sendTranslatedText` of internal/translation/sender.go, and to whom it sends.
use go_live_transcription.Prelude.{
  String, ◌==◌, Bool, true, ◌≡◌, sym, ◌∙◌, none, some, List, [], ◌∷◌, ◌++◌, append_assoc,
  append-nil, Bool-cases, keep_if, map, not, arith, if◌then◌else◌, inl, inr, refl,
}
use go_live_transcription.GoMap.{keys}
use go_live_transcription.Signaling.Messages.{SignalingMessage, typed, typed_payload}
use go_live_transcription.Signaling.Client.{SpreedClient, send_message}
use go_live_transcription.Signaling.Targets.{resolve_nc_session_id}
use go_live_transcription.Signaling.Delivery.{stamped, send-connected}
use go_live_transcription.Translation.Meta.{TranslateInputOutput}
use go_live_transcription.Constants.{max_translation_send_timeout}
use go_live_transcription.Sending.Timing.{Timing, translated_in_time, timed_out}

unfoldable pub translated_message : TranslateInputOutput → String → SignalingMessage
translated_message seg hpb = record (typed "message") {
  message = some (record {
    recipient = some (record { type = "session"; session_id = hpb });
    sender = none;
    body = some (record (typed_payload "transcript") {
      final = some true;
      lang_id = seg.target_language;
      message = seg.message;
      speaker_session_id = seg.speaker_session_id;
    });
  });
}

-- The loop over the Nextcloud sessions, which looks each of them up.
unfoldable pub send_translated_to : TranslateInputOutput → List String → SpreedClient → SpreedClient
send_translated_to seg [] c = c
send_translated_to seg (nc ∷ rest) c =
    let hpb = resolve_nc_session_id nc c in
    send_translated_to seg rest
      (if hpb == "" then c else send_message (translated_message seg hpb) c)

unfoldable pub send_translated_text : TranslateInputOutput → SpreedClient → SpreedClient
unfolding send_translated_to
send_translated_text seg c = send_translated_to seg (keys seg.target_nc_session_ids) c

pub record TranslatedSender : Type 0 where
  pub client : SpreedClient
  pub timing : Timing

-- One round of `Run`, for a segment that it takes from its channel. The sending goes on behind the
-- timeout.
unfoldable pub translated_round : Bool → TranslateInputOutput → TranslatedSender → TranslatedSender
unfolding send_translated_text translated_in_time timed_out
translated_round in_time seg s = record {
  client = send_translated_text seg s.client;
  timing =
      if in_time
      then translated_in_time s.timing
      else timed_out max_translation_send_timeout s.timing;
}

-- The HPB sessions that the Nextcloud sessions stand for, without those that are not mapped.
abbrev pub resolved : SpreedClient → List String → List String
resolved c ncs = keep_if (λ hpb. not (hpb == "")) (map (λ nc. resolve_nc_session_id nc c) ncs)

send_message-map :
    (m : SignalingMessage) (nc : String) (c : SpreedClient)
    → resolve_nc_session_id nc (send_message m c) ≡ resolve_nc_session_id nc c
unfolding send_message resolve_nc_session_id
send_message-map m nc c = ground arith

resolved-send :
    (m : SignalingMessage) (ncs : List String) (c : SpreedClient)
    → resolved (send_message m c) ncs ≡ resolved c ncs
resolved-send m [] c = refl
resolved-send m (nc ∷ ncs) c = rw (send_message-map m nc c, resolved-send m ncs c) refl

send_translated_to-sent :
    (seg : TranslateInputOutput) (ncs : List String) (c : SpreedClient)
    → c.conn ≡ true
    → (send_translated_to seg ncs c).sent
      ≡ c.sent ++ stamped c.msg_id (map (translated_message seg) (resolved c ncs))
unfolding send_translated_to
send_translated_to-sent seg [] c h = sym (append-nil c.sent)
send_translated_to-sent seg (nc ∷ rest) c h =
    let hpb = resolve_nc_session_id nc c in
    let msg = translated_message seg hpb in
    let d = send_message msg c in
    let (sent, id, conn) = send-connected msg c h in
    elim (Bool-cases (hpb == "")) [
      | inl e ↦ rw (e, send_translated_to) (send_translated_to-sent seg rest c h)
      | inr e ↦
          rw (e, send_translated_to)
            (send_translated_to-sent seg rest d conn
              ∙ rw (resolved-send msg rest c, sent, id) (append_assoc c.sent _ _))
    ]

-- A connected client sends a translation to exactly the targets of its segment whose HPB session is
-- known, once each, with consecutive numbers, and nothing else; this holds whether the sending is
-- done before the timeout or not.
pub translated_round-sent :
    (in_time : Bool) (seg : TranslateInputOutput) (s : TranslatedSender)
    → s.client.conn ≡ true
    → (translated_round in_time seg s).client.sent
      ≡ s.client.sent
        ++ stamped s.client.msg_id
            (map (translated_message seg) (resolved s.client (keys seg.target_nc_session_ids)))
unfolding translated_round send_translated_text
translated_round-sent in_time seg s h =
    send_translated_to-sent seg (keys seg.target_nc_session_ids) s.client h
