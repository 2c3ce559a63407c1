-- ===== src/Vosk/Worker.antt =====
-- The audio worker of a room (internal/vosk/worker.go): it takes the audio of the participants from
-- the client's channel, and feeds each to the recognizer of its speaker.
pub mod Rounds
pub mod Changes
pub mod Path
use go_live_transcription.Prelude.{ℕ, String, Option, List, [], ◌∷◌, Result, ok, err}
use go_live_transcription.Prelude.Int.{ℤ}
use go_live_transcription.GoMap.{insert}
use go_live_transcription.Signaling.Client.{Transcript, PcmAudio}
use go_live_transcription.Vosk.Models.{ModelManager, ModelDirectory, ModelError}
use go_live_transcription.Vosk.Recognizer.{Recognizer, Heard, Hearing, feed_audio}
use go_live_transcription.Vosk.Manager.{
  TranscriberManager, Managed, CreateError, get_or_create, set_language, close_all,
}
use go_live_transcription.Vosk.Audio.{downsample, int16_to_bytes}

-- The room's recognizers with the models, and the channel of transcripts.
pub record Worker : Type 0 where
  pub managed : Managed
  pub transcript_ch : List Transcript

-- What Vosk does in a round: the models it finds, the recognizer that it makes, and what it makes of
-- the bytes.
pub record Vosk : Type 0 where
  pub at : String → ModelDirectory
  pub made : Option ℕ
  pub heard : List ℕ → Heard

-- The end of a round, from what `GetOrCreate` gives: the map of the recognizers holds pointers, so
-- the fed recognizer is the one that stands in it.
unfoldable pub feed_into :
    Managed × Result CreateError Recognizer → ℕ → Vosk → PcmAudio → List Transcript → Worker
feed_into (w, err e) capacity v audio ch = record { managed = w; transcript_ch = ch }
feed_into ((tm, mm), ok r) capacity v audio ch =
    let bytes = int16_to_bytes (downsample audio.samples) in
    let h = feed_audio capacity (v.heard bytes) (record { recognizer = r; transcript_ch = ch }) in
    record {
      managed =
          (record tm { recognizers = insert audio.session_id h.recognizer tm.recognizers }, mm);
      transcript_ch = h.transcript_ch;
    }

-- A round of `Run` that takes audio, by its samples; audio without any is passed over.
unfoldable pub round_of : List ℤ → ℕ → Vosk → PcmAudio → Worker → Worker
unfolding feed_into
round_of [] capacity v audio w = w
round_of (s ∷ samples) capacity v audio w =
    feed_into (get_or_create v.at v.made audio.session_id w.managed) capacity v audio
      w.transcript_ch

unfoldable pub worker_round : ℕ → Vosk → PcmAudio → Worker → Worker
unfolding round_of
worker_round capacity v audio w = round_of audio.samples capacity v audio w

-- `SetLanguage` of the worker.
unfoldable pub worker_set_language :
    (String → ModelDirectory) → String → Worker → Worker × Option ModelError
worker_set_language at lang w =
    let r = set_language at lang w.managed in (record w { managed = r.0 }, r.1)

-- The end of `Run`.
unfoldable pub worker_stops : Worker → Worker
worker_stops w = record w { managed = close_all w.managed }
