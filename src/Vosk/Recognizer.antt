-- ===== src/Vosk/Recognizer.antt =====
-- The recognizer of one speaker (internal/vosk/recognizer.go). What Vosk makes of the audio is an
-- argument; a result is none where its JSON does not parse.
use go_live_transcription.Prelude.{
  ℕ, ◌+◌, ◌%◌, ◌^◌, String, ◌==◌, Bool, true, false, ◌||◌, Option, none, some, List, [], ◌∷◌, ◌++◌,
  length, if◌then◌else◌, ltb, leb,
}
use go_live_transcription.Signaling.Client.{Transcript}

pub record VoskResult : Type 0 where
  pub partial : String
  pub text : String

abbrev pub max_chunks_before_force_finalize : ℕ
max_chunks_before_force_finalize = 500

pub record Recognizer : Type 0 where
  pub rec : Option ℕ  -- the recognizer of Vosk, by its number
  pub model : ℕ
  pub sample_rate : ℕ
  pub session_id : String
  pub language : String
  pub feed_count : ℕ  -- the 64-bit pattern of the int64
  pub chunks_since_final : ℕ
  -- recognizers given back to Vosk
  pub freed : List ℕ

-- `NewRecognizer` around the recognizer that Vosk made.
unfoldable pub new_recognizer : ℕ → ℕ → String → String → ℕ → Recognizer
new_recognizer rec model session language rate = record {
  rec = some rec;
  model = model;
  sample_rate = rate;
  session_id = session;
  language = language;
  feed_count = 0;
  chunks_since_final = 0;
  freed = [];
}

abbrev pub free : Option ℕ → List ℕ → List ℕ
free none freed = freed
free (some rec) freed = rec ∷ freed

-- What Vosk answers to a chunk of audio: whether it takes it as the end of a phrase, its results,
-- and the recognizer that it makes for a reset.
pub record Heard : Type 0 where
  pub accepted : Bool
  pub result : Option VoskResult
  pub final_result : Option VoskResult
  pub partial_result : Option VoskResult
  pub renewed : Option ℕ

abbrev pub message_of : Bool → VoskResult → String
message_of is_final r = if is_final then r.text else r.partial

-- The recognizer and what waits in the channel of transcripts that the room's recognizers share.
pub record Hearing : Type 0 where
  pub recognizer : Recognizer
  pub transcript_ch : List Transcript

abbrev pub transcript_of : Bool → String → Recognizer → Transcript
transcript_of is_final message r = record {
  final = is_final;
  lang_id = r.language;
  message = message;
  speaker_session_id = r.session_id;
}

-- The end of `emitTranscript`, for a channel of the capacity.
unfoldable pub emit_message : ℕ → String → Bool → Hearing → Hearing
emit_message capacity message is_final h =
    if message == "" || message == "the"
    then h
    else (if ltb (length h.transcript_ch) capacity
        then record h {
          transcript_ch = h.transcript_ch ++ transcript_of is_final message h.recognizer ∷ [];
        }
        else h)

unfoldable pub emit_transcript : ℕ → Option VoskResult → Bool → Hearing → Hearing
unfolding emit_message
emit_transcript capacity none is_final h = h
emit_transcript capacity (some result) is_final h =
    emit_message capacity (message_of is_final result) is_final h

unfoldable pub reset_recognizer : Option ℕ → Recognizer → Recognizer
reset_recognizer renewed r = record r { freed = free r.rec r.freed; rec = renewed }

abbrev pub count_chunk : Hearing → Hearing
count_chunk h = record h {
  recognizer = record h.recognizer {
    feed_count = (h.recognizer.feed_count + 1) % 2 ^ 64;
    chunks_since_final = h.recognizer.chunks_since_final + 1;
  };
}

-- `FeedAudio` behind its first test.
unfoldable pub feed_live : ℕ → Heard → Hearing → Hearing
unfolding reset_recognizer
feed_live capacity a h =
    let fed = count_chunk h in
    if a.accepted
    then (let e = emit_transcript capacity a.result true fed in
        record e { recognizer = record e.recognizer { chunks_since_final = 0 } })
    else (if leb max_chunks_before_force_finalize fed.recognizer.chunks_since_final
        then (let e = emit_transcript capacity a.final_result true fed in
            record e {
              recognizer =
                  reset_recognizer a.renewed (record e.recognizer { chunks_since_final = 0 });
            })
        else emit_transcript capacity a.partial_result false fed)

abbrev pub feed_if : Option ℕ → ℕ → Heard → Hearing → Hearing
feed_if none capacity a h = h
feed_if (some rec) capacity a h = feed_live capacity a h

unfoldable pub feed_audio : ℕ → Heard → Hearing → Hearing
unfolding feed_live
feed_audio capacity a h = feed_if h.recognizer.rec capacity a h

unfoldable pub close_recognizer : Recognizer → Recognizer
close_recognizer r = record r { freed = free r.rec r.freed; rec = none }
