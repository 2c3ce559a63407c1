-- ===== src/Sending/Transcript.antt =====
-- One round of `Run` of internal/transcript/sender.go, for a transcript that it takes from its
-- channel.
use go_live_transcription.Prelude.{
  ℕ, String, Bool, ◌&&◌, Option, none, some, List, [], ◌∷◌, ◌++◌, length, if◌then◌else◌, ltb,
}
use go_live_transcription.Constants.{max_transcript_send_timeout}
use go_live_transcription.Signaling.Client.{SpreedClient, Transcript}
use go_live_transcription.Signaling.Targets.{send_transcript}
use go_live_transcription.Translation.Meta.{TranslateInputOutput}
use go_live_transcription.Sending.Timing.{Timing, sent_in_time, timed_out}

-- The client, what waits in the channel to the translators, and the variables of the loop.
pub record Sender : Type 0 where
  pub client : SpreedClient
  pub translate_in : List TranslateInputOutput
  pub timing : Timing

-- What the sender sees in a round: the two answers of `ShouldTranslate`, which may differ, the
-- method `IsTranslationTarget`, and whether the sending is done before the timeout.
pub record Surroundings : Type 0 where
  pub forwards : Bool
  pub excludes : Bool
  pub is_translation_target : String → Bool
  pub in_time : Bool

abbrev pub translation_input : Transcript → TranslateInputOutput
translation_input t = record {
  origin_language = t.lang_id;
  target_language = "";
  message = t.message;
  speaker_session_id = t.speaker_session_id;
  target_nc_session_ids = [];
}

-- `s.translateIn <- …` or its `default`, for a channel of the capacity.
unfoldable pub forward : ℕ → Transcript → List TranslateInputOutput → List TranslateInputOutput
forward capacity t waiting =
    if ltb (length waiting) capacity then waiting ++ translation_input t ∷ [] else waiting

-- `exclude`, where nil is none.
unfoldable pub exclusion : Surroundings → Transcript → Option (String → Bool)
exclusion s t = if t.final && s.excludes then some s.is_translation_target else none

-- The sending goes on behind the timeout, so the client has it either way.
unfoldable pub send_round : ℕ → Surroundings → Transcript → Sender → Sender
unfolding forward exclusion sent_in_time timed_out
send_round capacity s t sender = if sender.client.defunct then sender else record {
  client = send_transcript t (exclusion s t) sender.client;
  translate_in =
      if t.final && s.forwards then forward capacity t sender.translate_in else sender.translate_in;
  timing =
      if s.in_time
      then sent_in_time sender.timing
      else timed_out max_transcript_send_timeout sender.timing;
}
