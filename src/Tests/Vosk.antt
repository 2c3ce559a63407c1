-- ===== src/Tests/Vosk.antt =====
-- Speech recognition: runs, and the theorems at inputs.
use go_live_transcription.Prelude.{
  ◌/◌, String, ◌≡◌, refl, true, false, none, some, List, [], ◌∷◌, length, ltb, arith, if◌then◌else◌,
  ◌==◌,
}
use go_live_transcription.Prelude.Int.{ℤ, pos, negsuc}
use go_live_transcription.GoMap.{has}
use go_live_transcription.Vosk.Models.{ModelDirectory, loads, not_there}
use go_live_transcription.Vosk.Recognizer.{Heard, Hearing, new_recognizer, feed_audio}
use go_live_transcription.Vosk.Audio.{downsample, mean_of}
use go_live_transcription.Vosk.References.{refs}
use go_live_transcription.Vosk.Rooms.{
  Step, opens, calls, hears, switches, initial, total, run, run-counts,
}
use go_live_transcription.Vosk.Chunks.{
  Bounded, run-Bounded, Event, feeds, takes, feed_all, failed_reset_silences,
}
use go_live_transcription.Vosk.Samples.{all_in_range, means, downsample-exact}

abbrev directories : String → ModelDirectory
directories dir = if dir == "vosk-model-small-fr-0.22" then not_there else loads 3

-- Two rooms in English; one of them hears two speakers and then asks for German.
abbrev day : List Step
day =
    opens "a" "en" 16000
    ∷ opens "b" "en" 16000
    ∷ calls "a" (hears directories (some 1) "h1")
    ∷ calls "a" (hears directories (some 2) "h2")
    ∷ calls "b" (hears directories (some 3) "h3")
    ∷ calls "a" (switches directories "de")
    ∷ []

run-counts_example :
    let p = run day initial in
    (refs "en" p.models ≡ total "en" p.rooms)
    × (has "en" p.models.models ≡ ltb 0 (total "en" p.rooms))
run-counts_example = run-counts day "en"

abbrev heard : Heard
heard = record {
  accepted = false;
  result = none;
  final_result = some (record { partial = ""; text = "good morning" });
  partial_result = some (record { partial = "the"; text = "" });
  renewed = none;
}

-- A recognizer that has had 499 chunks without a final result.
abbrev long_speech : Hearing
long_speech = record {
  recognizer = record (new_recognizer 1 3 "h1" "en" 16000) { chunks_since_final = 499 };
  transcript_ch = [];
}

long_speech-Bounded : Bounded 10 long_speech
unfolding new_recognizer
long_speech-Bounded = record { chunks = omega arith; room = omega arith; meaning = refl }

run-Bounded_example :
    Bounded 10 (
      go_live_transcription.Vosk.Chunks.run 10 (feeds heard ∷ takes ∷ feeds heard ∷ []) long_speech)
run-Bounded_example =
    run-Bounded 10 (feeds heard ∷ takes ∷ feeds heard ∷ []) long_speech long_speech-Bounded

failed_reset_silences_example :
    feed_all 10 (heard ∷ heard ∷ []) (feed_audio 10 heard long_speech)
    ≡ feed_audio 10 heard long_speech
unfolding new_recognizer
failed_reset_silences_example =
    failed_reset_silences 10 1 heard (heard ∷ heard ∷ []) long_speech refl refl refl refl

abbrev samples : List ℤ
samples = pos 32767 ∷ pos 32767 ∷ negsuc 32767 ∷ negsuc 4 ∷ negsuc 1 ∷ pos 0 ∷ pos 9 ∷ []

mean_rounds_to_zero : mean_of (negsuc 4) (negsuc 1) (pos 0) ≡ negsuc 1
unfolding mean_of
mean_rounds_to_zero = refl

downsample-exact_example :
    (downsample samples ≡ means samples)
    × (length (downsample samples) ≡ length samples / 3)
    × (all_in_range (downsample samples) ≡ true)
downsample-exact_example = downsample-exact samples refl
