-- ===== src/Tests/Sending.antt =====
-- Transcripts and translations on their way: runs, and the theorems at inputs.
use go_live_transcription.Prelude.{
  ◌+◌, ◌≡◌, refl, true, false, List, [], ◌∷◌, ◌++◌, map, Bool, inl, inr, ne_of_eq_false, sym,
  String, if◌then◌else◌,
}
use go_live_transcription.Constants.{max_transcript_send_timeout, max_translation_send_timeout}
use go_live_transcription.GoMap.{keys}
use go_live_transcription.Signaling.Delivery.{stamped, Entry}
use go_live_transcription.Translation.Meta.{TranslateInputOutput, new_meta_translator}
use go_live_transcription.Translation.Sessions.{run}
use go_live_transcription.Sending.Timing.{start, timed_out}
use go_live_transcription.Sending.Transcript.{Sender, send_round}
use go_live_transcription.Sending.Translated.{
  translated_round, translated_round-sent, translated_message, resolved,
}
use go_live_transcription.Sending.Timeouts.{
  sent_in_time-translated, run-bounds, run-recovers, all_in_time,
}
use go_live_transcription.Sending.OneCopy.{IsTarget, one_copy, seen, sent_to, jobs_waiting, is_lost}
use go_live_transcription.Tests.Samples.{busy, said}
use go_live_transcription.Tests.Translation.{history, segment}

abbrev late : List Bool
late = false ∷ false ∷ false ∷ false ∷ false ∷ []

abbrev sender : Sender
sender = record { client = busy; translate_in = []; timing = start }

abbrev translated : TranslateInputOutput
translated = record segment {
  target_language = "fr";
  target_nc_session_ids = ("n9", tt) ∷ ("n1", tt) ∷ [];
}

timeout_raised :
    go_live_transcription.Sending.Timeouts.run max_transcript_send_timeout late start
    ≡ record { timeout = 15_000_000_000; timeout_count = 0 }
unfolding timed_out
timeout_raised = refl

run-recovers_example :
    (go_live_transcription.Sending.Timeouts.run max_transcript_send_timeout
        (all_in_time 9)
        (go_live_transcription.Sending.Timeouts.run max_transcript_send_timeout late start)
      ≡ start)
    × (go_live_transcription.Sending.Timeouts.run max_translation_send_timeout
          (all_in_time 9)
          (go_live_transcription.Sending.Timeouts.run max_translation_send_timeout late start)
        ≡ start)
run-recovers_example = run-recovers late

translated_round-sent_example :
    (translated_round true translated (record { client = busy; timing = start })).client.sent
    ≡ [] ++ stamped 0 (map (translated_message translated) (resolved busy ("n9" ∷ "n1" ∷ [])))
translated_round-sent_example =
    translated_round-sent true translated (record { client = busy; timing = start }) refl

only_n1 : (k : String) → Entry k "h1" busy.nc_sid_map → k ≡ "n1"
only_n1 k (inl (e, _)) = sym e
only_n1 k (inr (inl (_, e))) = absurd (ne_of_eq_false "h2" "h1" refl e)
only_n1 k (inr (inr h)) = absurd h

n1-IsTarget : IsTarget "n1" "h1" busy
unfolding go_live_transcription.GoMap.has go_live_transcription.GoMap.lookup
n1-IsTarget = record {
  live = refl;
  connected = refl;
  named = ne_of_eq_false "n1" "" refl;
  entry = inl (refl, refl);
  only = only_n1;
  distinct = (refl, (refl, tt));
  target = refl;
}

one_copy_example :
    let m = run history (new_meta_translator "room" "en") in
    let d = send_round 5 (seen m true) said sender in
    sent_to "h1" d.client.sent + jobs_waiting "n1" m d.translate_in
    ≡ 0 + (if is_lost "n1" m said 5 [] then 0 else 1)
one_copy_example = one_copy history "room" "en" "n1" "h1" said 5 true sender n1-IsTarget
