-- ===== src/Vosk/Chunks.antt =====
-- How long a recognizer goes without a final result and what it lets through
-- (internal/vosk/recognizer.go).
use go_live_transcription.Prelude.{
  ℕ, ◌≤◌, ◌<◌, String, ◌==◌, ◌≡◌, refl, Bool, true, false, not, ◌&&◌, Option, none, some, List, [],
  ◌∷◌, ◌++◌, length, length-append, arith,
}
use go_live_transcription.Signaling.Client.{Transcript}
use go_live_transcription.Vosk.Recognizer.{
  Heard, Hearing, VoskResult, emit_message, emit_transcript, feed_live, feed_audio,
  reset_recognizer, transcript_of, message_of, count_chunk, feed_if,
}

-- A transcript says something.
abbrev pub says : Transcript → Bool
says t = not (t.message == "") && not (t.message == "the")

abbrev pub all_say : List Transcript → Bool
all_say [] = true
all_say (t ∷ ts) = says t && all_say ts

all_say-append :
    (ts : List Transcript) (t : Transcript) → all_say (ts ++ t ∷ []) ≡ (all_say ts && says t)
all_say-append [] t = ground arith
all_say-append (u ∷ ts) t = ground (arith, all_say-append ts t)

-- The recognizer has had fewer than 500 chunks since its last final result; the channel holds no
-- more than its capacity, and only transcripts that say something.
pub record Bounded (capacity : ℕ) (h : Hearing) : Type 0 where
  pub chunks : h.recognizer.chunks_since_final < 500
  pub room : length h.transcript_ch ≤ capacity
  pub meaning : all_say h.transcript_ch ≡ true

-- The channel part of `Bounded`, and the recognizer is as it was.
abbrev Emits : ℕ → Hearing → Hearing → Type 0
Emits capacity h e =
    (e.recognizer ≡ h.recognizer)
    × (length e.transcript_ch ≤ capacity)
    × (all_say e.transcript_ch ≡ true)

message-Emits :
    (capacity : ℕ) (message : String) (is_final : Bool) (h : Hearing)
    → length h.transcript_ch ≤ capacity
    → all_say h.transcript_ch ≡ true
    → Emits capacity h (emit_message capacity message is_final h)
unfolding emit_message
message-Emits capacity message is_final h room meaning =
    let t = transcript_of is_final message h.recognizer in
    ground (
      arith,
      room,
      meaning,
      length-append h.transcript_ch (t ∷ []),
      all_say-append h.transcript_ch t,
    )

emit-Emits :
    (capacity : ℕ) (r : Option VoskResult) (is_final : Bool) (h : Hearing)
    → length h.transcript_ch ≤ capacity
    → all_say h.transcript_ch ≡ true
    → Emits capacity h (emit_transcript capacity r is_final h)
unfolding emit_transcript
emit-Emits capacity none is_final h room meaning = (refl, room, meaning)
emit-Emits capacity (some r) is_final h room meaning =
    message-Emits capacity (message_of is_final r) is_final h room meaning

feed_live-Bounded :
    (capacity : ℕ) (a : Heard) (h : Hearing)
    → Bounded capacity h
    → Bounded capacity (feed_live capacity a h)
unfolding feed_live reset_recognizer
feed_live-Bounded capacity a h b =
    let fed = count_chunk h in
    ground (
      arith,
      b,
      emit-Emits capacity a.result true fed b.room b.meaning,
      emit-Emits capacity a.final_result true fed b.room b.meaning,
      emit-Emits capacity a.partial_result false fed b.room b.meaning,
    )

pub feed_if-Bounded :
    (o : Option ℕ) (capacity : ℕ) (a : Heard) (h : Hearing)
    → Bounded capacity h
    → Bounded capacity (feed_if o capacity a h)
feed_if-Bounded none capacity a h b = b
feed_if-Bounded (some rec) capacity a h b = feed_live-Bounded capacity a h b

-- What happens to a recognizer and its channel: a chunk of audio with what Vosk makes of it, or the
-- sender takes a transcript.
pub data Event : Type 0 where
  feeds : Heard → Event
  takes : Event

abbrev pub behind_first : List Transcript → List Transcript
behind_first [] = []
behind_first (t ∷ ts) = ts

abbrev pub step : ℕ → Event → Hearing → Hearing
step capacity (feeds a) h = feed_audio capacity a h
step capacity takes h = record h { transcript_ch = behind_first h.transcript_ch }

abbrev pub run : ℕ → List Event → Hearing → Hearing
run capacity [] h = h
run capacity (e ∷ es) h = run capacity es (step capacity e h)

pub takes-room :
    (ts : List Transcript) (capacity : ℕ)
    → length ts ≤ capacity
    → all_say ts ≡ true
    → (length (behind_first ts) ≤ capacity) × (all_say (behind_first ts) ≡ true)
takes-room [] capacity room meaning = (room, meaning)
takes-room (t ∷ ts) capacity room meaning = ground (arith, room, meaning)

step-Bounded :
    (capacity : ℕ) (e : Event) (h : Hearing)
    → Bounded capacity h
    → Bounded capacity (step capacity e h)
unfolding feed_audio
step-Bounded capacity (feeds a) h b = feed_if-Bounded h.recognizer.rec capacity a h b
step-Bounded capacity takes h b =
    ground (arith, b, takes-room h.transcript_ch capacity b.room b.meaning)

-- Whatever Vosk makes of the audio, a recognizer that starts within these bounds stays there: fewer
-- than 500 chunks since its last final result, no more transcripts in the channel than it holds, and
-- none that is empty or just "the".
pub run-Bounded :
    (capacity : ℕ) (es : List Event) (h : Hearing)
    → Bounded capacity h
    → Bounded capacity (run capacity es h)
run-Bounded capacity [] h b = b
run-Bounded capacity (e ∷ es) h b =
    run-Bounded capacity es (step capacity e h) (step-Bounded capacity e h b)

abbrev pub feed_all : ℕ → List Heard → Hearing → Hearing
feed_all capacity [] h = h
feed_all capacity (a ∷ later) h = feed_all capacity later (feed_audio capacity a h)

deaf :
    (capacity : ℕ) (later : List Heard) (h : Hearing)
    → h.recognizer.rec ≡ none
    → feed_all capacity later h ≡ h
unfolding feed_audio
deaf capacity [] h e = refl
deaf capacity (a ∷ later) h e = ground (arith, e, deaf capacity later h e)

-- At its 500th chunk without a final result a recognizer is made anew. If Vosk does not make one,
-- the recognizer stays in place and takes no more audio: whatever is said later changes nothing.
pub failed_reset_silences :
    (capacity rec : ℕ) (a : Heard) (later : List Heard) (h : Hearing)
    → h.recognizer.rec ≡ some rec
    → h.recognizer.chunks_since_final ≡ 499
    → a.accepted ≡ false
    → a.renewed ≡ none
    → feed_all capacity later (feed_audio capacity a h) ≡ feed_audio capacity a h
unfolding feed_audio feed_live reset_recognizer
failed_reset_silences capacity rec a later h live full more failed =
    deaf capacity later (feed_audio capacity a h) (ground (arith, live, full, more, failed))
