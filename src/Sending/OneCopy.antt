-- ===== src/Sending/OneCopy.antt =====
-- A round of the sender gives a transcript to each target once, as it is or through the channel to the
-- translators, unless that channel is full (internal/transcript/sender.go with
-- internal/translation/meta.go).
use go_live_transcription.Prelude.{
  ℕ, ◌%◌, ◌^◌, ◌+◌, ◌≡◌, ◌≢◌, refl, ap, Bool, true, false, not, ◌==◌, eq_iff, String, Option, none,
  some, List, [], ◌∷◌, ◌++◌, map, keep_if, arith, if◌then◌else◌, Bool-cases, inl, inr, length, ltb,
  ◌&&◌,
}
use go_live_transcription.GoMap.{GoMap, GoSet, keys, has, has_key}
use go_live_transcription.GoMap.Laws.{Distinct, has-cons}
use go_live_transcription.Signaling.Messages.{SignalingMessage, DataMessage, Recipient}
use go_live_transcription.Signaling.Client.{SpreedClient, Transcript}
use go_live_transcription.Signaling.Targets.{transcript_message, send_transcript}
use go_live_transcription.Signaling.Delivery.{
  recipients, excluded, Entry, skips_mapped, skips-excluded, stamped, send_transcript-having_sent,
}
use go_live_transcription.Translation.Meta.{
  MetaTranslator, TranslateInputOutput, new_meta_translator, fan_out, is_translation_target,
}
use go_live_transcription.Translation.Sessions.{Call, run}
use go_live_transcription.Translation.Delivery.{jobs_for, jobs_once}
use go_live_transcription.Sending.Transcript.{
  Sender, Surroundings, exclusion, forward, send_round, translation_input,
}

-- How often a text is in a list.
abbrev pub times : String → List String → ℕ
times x [] = 0
times x (y ∷ ys) = (if y == x then 1 else 0) + times x ys

times-keep_if :
    (x : String) (p : String → Bool) (ys : List String)
    → times x (keep_if p ys) ≡ (if p x then times x ys else 0)
times-keep_if x p [] = ground arith
times-keep_if x p (y ∷ ys) = ground (arith, eq_iff y x, times-keep_if x p ys)

times-absent : {V : Type 0} → (x : String) (m : GoMap V) → has x m ≡ false → times x (keys m) ≡ 0
times-absent x [] h = refl
times-absent x ((k, v) ∷ m) h = ground (arith, has-cons x k v m, times-absent x m)

times-present :
    {V : Type 0} → (x : String) (m : GoMap V) → Distinct m → has x m ≡ true → times x (keys m) ≡ 1
unfolding has go_live_transcription.GoMap.lookup
times-present x [] d h = absurd (ground (arith, h))
times-present x ((k, v) ∷ m) d h = elim (Bool-cases (k == x)) [
  | inl e ↦ ground (arith, eq_iff k x, times-absent x m)
  | inr e ↦ ground (arith, has-cons x k v m, times-present x m d.1)
]

-- Whether a message is for the HPB session.
abbrev for_recipient : String → Option Recipient → Bool
for_recipient hpb none = false
for_recipient hpb (some r) = r.session_id == hpb

abbrev for_data : String → Option DataMessage → Bool
for_data hpb none = false
for_data hpb (some d) = for_recipient hpb d.recipient

-- How many messages are for the HPB session.
abbrev pub sent_to : String → List SignalingMessage → ℕ
sent_to hpb [] = 0
sent_to hpb (m ∷ ms) = (if for_data hpb m.message then 1 else 0) + sent_to hpb ms

sent_to-append :
    (hpb : String) (xs ys : List SignalingMessage)
    → sent_to hpb (xs ++ ys) ≡ sent_to hpb xs + sent_to hpb ys
sent_to-append hpb [] ys = omega arith
sent_to-append hpb (x ∷ xs) ys = ground (arith, sent_to-append hpb xs ys)

sent_to-stamped :
    (hpb : String) (t : Transcript) (id : ℕ) (hpbs : List String)
    → sent_to hpb (stamped id (map (transcript_message t) hpbs)) ≡ times hpb hpbs
unfolding transcript_message
sent_to-stamped hpb t id [] = refl
sent_to-stamped hpb t id (x ∷ xs) =
    ap (λ n. (if x == hpb then 1 else 0) + n) (sent_to-stamped hpb t ((id + 1) % 2 ^ 64) xs)

-- The messages for a target of a client that leave with a transcript.
send_transcript-times :
    (hpb : String) (t : Transcript) (exclude : Option (String → Bool)) (c : SpreedClient)
    → c.conn ≡ true
    → Distinct c.targets
    → has hpb c.targets ≡ true
    → sent_to hpb (send_transcript t exclude c).sent
      ≡ sent_to hpb c.sent + (if excluded exclude c.nc_sid_map hpb then 0 else 1)
send_transcript-times hpb t exclude c conn d target =
    rw
      (
        send_transcript-having_sent t exclude c conn,
        sent_to-append hpb c.sent (
            stamped c.msg_id
              (map (transcript_message t) (recipients exclude c.nc_sid_map (keys c.targets)))),
        sent_to-stamped hpb t c.msg_id (recipients exclude c.nc_sid_map (keys c.targets)),
        times-keep_if hpb (λ x. not (excluded exclude c.nc_sid_map x)) (keys c.targets),
        times-present hpb c.targets d target,
      )
      (ground arith)

-- What the sender sees while the translators of a call answer it and are not changed meanwhile.
abbrev pub seen : MetaTranslator → Bool → Surroundings
seen m in_time = record {
  forwards = m.should_translate;
  excludes = m.should_translate;
  is_translation_target = λ nc. is_translation_target nc m;
  in_time = in_time;
}

-- The translation jobs for a session that come of the segments that wait in the channel.
abbrev pub jobs_waiting : String → MetaTranslator → List TranslateInputOutput → ℕ
jobs_waiting nc m [] = 0
jobs_waiting nc m (seg ∷ segs) = jobs_for nc (fan_out seg m.translators) + jobs_waiting nc m segs

jobs_waiting-snoc :
    (nc : String) (m : MetaTranslator) (segs : List TranslateInputOutput)
    (seg : TranslateInputOutput)
    → jobs_waiting nc m (segs ++ seg ∷ [])
      ≡ jobs_waiting nc m segs + jobs_for nc (fan_out seg m.translators)
jobs_waiting-snoc nc m [] seg = omega arith
jobs_waiting-snoc nc m (x ∷ segs) seg = ground (arith, jobs_waiting-snoc nc m segs seg)

-- Whether a transcript is lost for a session: it is final, a translation is wanted for the session,
-- and the channel to the translators is full.
abbrev pub is_lost : String → MetaTranslator → Transcript → ℕ → List TranslateInputOutput → Bool
is_lost nc m t capacity waiting =
    t.final
    && m.should_translate
    && is_translation_target nc m
    && not (ltb (length waiting) capacity)

-- The client is connected, and `hpb` is a target that one Nextcloud session, `nc`, stands for.
pub record IsTarget (nc hpb : String) (c : SpreedClient) : Type 0 where
  pub live : c.defunct ≡ false
  pub connected : c.conn ≡ true
  pub named : nc ≢ ""
  pub entry : Entry nc hpb c.nc_sid_map
  pub only : (k : String) → Entry k hpb c.nc_sid_map → k ≡ nc
  pub distinct : Distinct c.targets
  pub target : has hpb c.targets ≡ true

-- After any history of the translators, a round of the sender gives a transcript to a target of a live
-- and connected client exactly once, if one Nextcloud session and no other stands for it: either one
-- more message for the target has left the client, or the segments that wait for the translators give
-- one more translation job for that session, never both. The one exception is a transcript that is
-- lost: it is final, the translators say that they translate and have the session for a target, and
-- the channel to them is full; then the target gets no copy at all.
pub one_copy :
    (ks : List Call) (room room_lang nc hpb : String) (t : Transcript) (capacity : ℕ)
    (in_time : Bool) (s : Sender)
    → IsTarget nc hpb s.client
    → let m = run ks (new_meta_translator room room_lang) in
      let d = send_round capacity (seen m in_time) t s in
      sent_to hpb d.client.sent + jobs_waiting nc m d.translate_in
      ≡ sent_to hpb s.client.sent
        + jobs_waiting nc m s.translate_in
        + (if is_lost nc m t capacity s.translate_in then 0 else 1)
unfolding send_round exclusion forward
one_copy ks room room_lang nc hpb t capacity in_time s h =
    let m = run ks (new_meta_translator room room_lang) in
    let exclude = (λ (n : String). is_translation_target n m) in
    rw h.live (
      ground (
        arith,
        send_transcript-times hpb t none s.client h.connected h.distinct h.target,
        send_transcript-times hpb t (some exclude) s.client h.connected h.distinct h.target,
        skips-excluded (some exclude) s.client.nc_sid_map hpb,
        skips_mapped exclude nc hpb s.client.nc_sid_map h.named h.entry h.only,
        jobs_waiting-snoc nc m s.translate_in (translation_input t),
        jobs_once ks room room_lang nc (translation_input t),
      ))
