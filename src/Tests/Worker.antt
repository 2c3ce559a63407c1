-- ===== src/Tests/Worker.antt =====
-- The audio worker: a run, and the theorem at it.
use go_live_transcription.Prelude.{
  ◌≤◌, String, ◌==◌, ◌≡◌, refl, Bool, true, none, some, List, [], ◌∷◌, length, ◌||◌,
}
use go_live_transcription.Prelude.Int.{pos}
use go_live_transcription.Signaling.Audio.{decoded, no_packet}
use go_live_transcription.Vosk.Models.{new_model_manager, loads}
use go_live_transcription.Vosk.Manager.{new_transcriber_manager}
use go_live_transcription.Vosk.Chunks.{all_say}
use go_live_transcription.Vosk.Worker.{Vosk}
use go_live_transcription.Vosk.Worker.Rounds.{all_from}
use go_live_transcription.Vosk.Worker.Path.{
  Room, PathEvent, reads, works, other, path_run, path_run-attributes,
}
use go_live_transcription.Tests.Samples.{fresh}
use go_live_transcription.Vosk.Worker.Changes.{switches, stops}

-- Vosk hears a greeting in everything.
abbrev greeting : Vosk
greeting = record {
  at = λ dir. loads 3;
  made = some 7;
  heard = λ bytes. record {
    accepted = true;
    result = some (record { partial = ""; text = "hello" });
    final_result = none;
    partial_result = none;
    renewed = none;
  };
}

-- A room before anything is said.
abbrev quiet : Room
quiet = record {
  client = fresh;
  worker = record {
    managed = (new_transcriber_manager "en" 16000, new_model_manager);
    transcript_ch = [];
  };
}

abbrev call : List PathEvent
call =
    reads "h1" (decoded (pos 3 ∷ pos 6 ∷ pos 9 ∷ []))
    ∷ reads "h2" (decoded (pos 1 ∷ []))
    ∷ works greeting
    ∷ other (switches (λ dir. loads 4) "de")
    ∷ reads "h2" no_packet
    ∷ works greeting
    ∷ works greeting
    ∷ other stops
    ∷ []

two_greetings :
    (path_run 5 call quiet).worker.transcript_ch
    ≡ record { final = true; lang_id = "en"; message = "hello"; speaker_session_id = "h1" }
      ∷ record { final = true; lang_id = "de"; message = "hello"; speaker_session_id = "h2" }
      ∷ []
unfolding path_run go_live_transcription.Signaling.Offers.push_audio
    go_live_transcription.Vosk.Worker.worker_stops go_live_transcription.Vosk.Worker.worker_round
    go_live_transcription.Vosk.Manager.get_or_create go_live_transcription.GoMap.lookup
    go_live_transcription.Vosk.Worker.worker_set_language
    go_live_transcription.Vosk.Manager.set_language new_transcriber_manager
    go_live_transcription.Vosk.Models.get_model new_model_manager
    go_live_transcription.Languages.Model.models_list go_live_transcription.GoMap.insert
    go_live_transcription.Vosk.Models.release_model go_live_transcription.GoMap.delete
    go_live_transcription.Vosk.Recognizer.feed_audio
    go_live_transcription.Vosk.Recognizer.new_recognizer
    go_live_transcription.Vosk.Recognizer.emit_transcript
two_greetings = refl

abbrev participants : String → Bool
participants sid = sid == "h1" || sid == "h2"

abbrev chosen : String → Bool
chosen lang = lang == "en" || lang == "de"

path_run-attributes_example :
    let end = path_run 5 call quiet in
    (all_from participants chosen end.worker.transcript_ch ≡ true)
    × (all_say end.worker.transcript_ch ≡ true)
    × (length end.worker.transcript_ch ≤ 5)
    × (length end.client.pcm_audio_ch ≤ 100)
path_run-attributes_example =
    path_run-attributes participants chosen 5 call "en" 16000 new_model_manager fresh refl refl refl
