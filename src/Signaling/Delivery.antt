-- ===== src/Signaling/Delivery.antt =====
-- Whom `SendTranscript` of internal/signaling/client.go reaches, and with what.
use go_live_transcription.Prelude.{
  ℕ, ◌+◌, ◌%◌, ◌^◌, String, eq_iff, Bool, true, false, not, ◌≡◌, ◌≢◌, refl, sym, ◌∙◌, ◌⊎◌, inl, inr,
  Option, none, some, List, [], ◌∷◌, ◌++◌, arith, keep_if, map, append_assoc, append-nil,
  Bool-cases, ne-eq_false, ap, ◌==◌, ◌&&◌, if◌then◌else◌,
}
use go_live_transcription.GoMap.{GoMap, keys, lookup, insert}
use go_live_transcription.GoMap.Laws.{lookup-insert}
use go_live_transcription.Signaling.Messages.{SignalingMessage}
use go_live_transcription.Signaling.Client.{SpreedClient, Transcript, send_message}
use go_live_transcription.Signaling.Targets.{
  send_to, send_transcript, skips, transcript_message, reverse_map, or_empty,
}

-- The messages as they leave a client whose last number is `id`.
abbrev pub stamped : ℕ → List SignalingMessage → List SignalingMessage
stamped id [] = []
stamped id (m ∷ ms) = record m { id = some ((id + 1) % 2 ^ 64) } ∷ stamped ((id + 1) % 2 ^ 64) ms

-- The number of the last of them.
abbrev pub last_number : ℕ → List SignalingMessage → ℕ
last_number id [] = id
last_number id (m ∷ ms) = last_number ((id + 1) % 2 ^ 64) ms

-- The client after the messages have left it, otherwise as it was.
abbrev pub having_sent : List SignalingMessage → SpreedClient → SpreedClient
having_sent ms c = record c {
  sent = c.sent ++ stamped c.msg_id ms;
  msg_id = last_number c.msg_id ms;
}

abbrev pub or_else : Option String → Option String → Option String
or_else none o = o
or_else (some x) o = some x

-- The Nextcloud session that stands for a session of the signaling server: the last one, in the
-- order of the visit, that is mapped to it.
abbrev pub stands_for : String → GoMap String → Option String
stands_for hpb [] = none
stands_for hpb ((nc, sid) ∷ m) = or_else (stands_for hpb m) (if sid == hpb then some nc else none)

-- Whether a predicate excludes a Nextcloud session; one without a name is never excluded.
abbrev pub excludes : (String → Bool) → Option String → Bool
excludes exclude none = false
excludes exclude (some nc) = if nc == "" then false else exclude nc

-- Whether a target is excluded.
abbrev pub excluded : Option (String → Bool) → GoMap String → String → Bool
excluded none m hpb = false
excluded (some exclude) m hpb = excludes exclude (stands_for hpb m)

-- The targets that are not.
abbrev pub recipients : Option (String → Bool) → GoMap String → List String → List String
recipients exclude m = keep_if (λ hpb. not (excluded exclude m hpb))

or_else_assoc : (a b c : Option String) → or_else (or_else a b) c ≡ or_else a (or_else b c)
or_else_assoc none b c = refl
or_else_assoc (some x) b c = refl

lookup-reverse_map :
    (hpb : String) (m acc : GoMap String)
    → lookup hpb (reverse_map acc m) ≡ or_else (stands_for hpb m) (lookup hpb acc)
unfolding reverse_map
lookup-reverse_map hpb [] acc = refl
lookup-reverse_map hpb ((nc, sid) ∷ m) acc =
    lookup-reverse_map hpb m (insert sid nc acc)
    ∙ ap (or_else (stands_for hpb m)) last
    ∙ sym (or_else_assoc (stands_for hpb m) _ (lookup hpb acc))
  where
    last :
        lookup hpb (insert sid nc acc)
        ≡ or_else (if sid == hpb then some nc else none) (lookup hpb acc)
    last = ground (arith, lookup-insert sid hpb nc acc, eq_iff sid hpb)

pub skips-excluded :
    (exclude : Option (String → Bool)) (m : GoMap String) (hpb : String)
    → skips exclude m hpb ≡ excluded exclude m hpb
unfolding skips lookup
skips-excluded none m hpb = refl
skips-excluded (some exclude) m hpb = rw (lookup-reverse_map hpb m []) (found (stands_for hpb m))
  where
    found :
        (o : Option String)
        → (let nc = or_empty (or_else o none) in not (nc == "") && exclude nc) ≡ excludes exclude o
    found none = refl
    found (some nc) = ground arith

pub send-connected :
    (m : SignalingMessage) (c : SpreedClient)
    → c.conn ≡ true
    → let d = send_message m c in
      (d.sent ≡ c.sent ++ record m { id = some ((c.msg_id + 1) % 2 ^ 64) } ∷ [])
      × (d.msg_id ≡ (c.msg_id + 1) % 2 ^ 64)
      × (d.conn ≡ true)
unfolding send_message
send-connected m c h = ground arith

send-having_sent :
    (m : SignalingMessage) (c : SpreedClient)
    → c.conn ≡ true
    → send_message m c ≡ having_sent (m ∷ []) c
unfolding send_message
send-having_sent m c h = ground arith

having_sent_twice :
    (m : SignalingMessage) (ms : List SignalingMessage) (c : SpreedClient)
    → having_sent ms (having_sent (m ∷ []) c) ≡ having_sent (m ∷ ms) c
having_sent_twice m ms c =
    ap
      (λ (sent : List SignalingMessage). record c {
        sent = sent;
        msg_id = last_number ((c.msg_id + 1) % 2 ^ 64) ms;
      })
      (append_assoc c.sent _ _)

send_to-having_sent :
    (t : Transcript) (exclude : Option (String → Bool)) (m : GoMap String) (hpbs : List String)
    (c : SpreedClient)
    → c.conn ≡ true
    → send_to t exclude m hpbs c
      ≡ having_sent (map (transcript_message t) (recipients exclude m hpbs)) c
unfolding send_to
send_to-having_sent t exclude m [] c h =
    ap (λ (sent : List SignalingMessage). record c { sent = sent }) (sym (append-nil c.sent))
send_to-having_sent t exclude m (hpb ∷ rest) c h =
    let msg = transcript_message t hpb in
    let same = skips-excluded exclude m hpb in
    elim (Bool-cases (excluded exclude m hpb)) [
      | inl e ↦ rw (e, same ∙ e, send_to) (send_to-having_sent t exclude m rest c h)
      | inr e ↦
          rw (e, same ∙ e, send_to, send-having_sent msg c h)
            (send_to-having_sent t exclude m rest (having_sent (msg ∷ []) c) h
              ∙ having_sent_twice msg _ c)
    ]

-- A connected client sends the transcript to exactly the targets that are not excluded, once each,
-- in the order of the targets, with consecutive numbers, and nothing else; but for the messages and
-- the counter the client stays as it was, so it keeps all its targets. A target is excluded exactly
-- when the predicate holds of the Nextcloud session that stands for it, the last one mapped to it, and
-- that session has a name.
pub send_transcript-having_sent :
    (t : Transcript) (exclude : Option (String → Bool)) (c : SpreedClient)
    → c.conn ≡ true
    → send_transcript t exclude c
      ≡ having_sent
          (map (transcript_message t) (recipients exclude c.nc_sid_map (keys c.targets)))
          c
unfolding send_transcript
send_transcript-having_sent t exclude c h =
    send_to-having_sent t exclude c.nc_sid_map (keys c.targets) c h

-- An entry of a Go map.
abbrev pub Entry : String → String → GoMap String → Type 0
Entry nc hpb [] = ⊥
Entry nc hpb ((k, v) ∷ m) = ((k ≡ nc) × (v ≡ hpb)) ⊎ Entry nc hpb m

reverse_map-lookup :
    (nc hpb : String) (m acc : GoMap String)
    → ((k : String) → Entry k hpb m → k ≡ nc)
    → Entry nc hpb m ⊎ (lookup hpb acc ≡ some nc)
    → lookup hpb (reverse_map acc m) ≡ some nc
unfolding reverse_map
reverse_map-lookup nc hpb [] acc only (inl h) = absurd h
reverse_map-lookup nc hpb [] acc only (inr h) = h
reverse_map-lookup nc hpb ((k, v) ∷ m) acc only h =
    reverse_map-lookup nc hpb m (insert v k acc) (λ j e. only j (inr e))
      (ground (arith, lookup-insert v hpb k acc, eq_iff v hpb, only k))

-- A target that one Nextcloud session stands for, and no other, is skipped exactly when that session
-- is excluded.
pub skips_mapped :
    (exclude : String → Bool) (nc hpb : String) (m : GoMap String)
    → nc ≢ ""
    → Entry nc hpb m
    → ((k : String) → Entry k hpb m → k ≡ nc)
    → skips (some exclude) m hpb ≡ exclude nc
unfolding skips
skips_mapped exclude nc hpb m named entry only =
    rw (reverse_map-lookup nc hpb m [] only (inl entry)) (ground (arith, eq_iff nc ""))

reverse_map_unmapped :
    (hpb : String) (m acc : GoMap String)
    → ((k : String) → ¬ Entry k hpb m)
    → lookup hpb acc ≡ none
    → lookup hpb (reverse_map acc m) ≡ none
unfolding reverse_map
reverse_map_unmapped hpb [] acc free h = h
reverse_map_unmapped hpb ((k, v) ∷ m) acc free h =
    reverse_map_unmapped hpb m (insert v k acc) (λ j e. free j (inr e))
      (rw (lookup-insert v hpb k acc, ne-eq_false v hpb (λ e. free k (inl (refl, e)))) h)

-- A target that no Nextcloud session stands for is never skipped.
pub skips_unmapped :
    (exclude : String → Bool) (hpb : String) (m : GoMap String)
    → ((k : String) → ¬ Entry k hpb m)
    → skips (some exclude) m hpb ≡ false
unfolding skips lookup
skips_unmapped exclude hpb m free = rw (reverse_map_unmapped hpb m [] free refl) refl
