-- ===== src/Tests/Flow.antt =====
-- The way of a translation: a run, and the theorem at it.
use go_live_transcription.Prelude.{
  ◌≤◌, String, ◌==◌, ◌≡◌, refl, Bool, true, ◌&&◌, ◌||◌, List, [], ◌∷◌, length, ok, err,
}
use go_live_transcription.Signaling.Client.{Transcript}
use go_live_transcription.Translation.Ocp.{fetched, translate}
use go_live_transcription.Translation.Meta.{TranslateInputOutput, new_meta_translator}
use go_live_transcription.Translation.Flow.{
  Flow, FlowEvent, says, fans_out, takes, shuts_down, finishes, adds, removes, sets_language,
  flow_run,
}
use go_live_transcription.Translation.Flow.Asked.{all_suit}
use go_live_transcription.Translation.Flow.Delivered.{flow_run-suits}
use go_live_transcription.Tests.Translation.{types}

abbrev begins : Flow
begins = record {
  meta = new_meta_translator "room" "en";
  translate_in = [];
  jobs = [];
  translate_out = [];
  taken = [];
}

abbrev hello : Transcript
hello = record { final = true; lang_id = "en"; message = "hello"; speaker_session_id = "h1" }

-- Two sessions ask for two languages; the French job fails.
abbrev talk : List FlowEvent
talk =
    adds 0 (fetched types) "de" "n1"
    ∷ adds 0 (fetched types) "fr" "n2"
    ∷ says true hello
    ∷ fans_out
    ∷ removes "n2"
    ∷ finishes 1 (err translate)
    ∷ finishes 0 (ok "hallo")
    ∷ takes
    ∷ shuts_down
    ∷ []

one_translation :
    (flow_run talk begins).taken
    ≡ record {
      origin_language = "en";
      target_language = "de";
      message = "hallo";
      speaker_session_id = "h1";
      target_nc_session_ids = ("n1", tt) ∷ [];
    }
      ∷ []
unfolding flow_run go_live_transcription.Translation.Flow.job_at
    go_live_transcription.Translation.Meta.add_translator
    go_live_transcription.Translation.Meta.switch_translator go_live_transcription.GoMap.lookup
    new_meta_translator go_live_transcription.Translation.Meta.assign_translator
    go_live_transcription.Translation.Meta.find_translator
    go_live_transcription.Translation.Ocp.is_language_pair_supported
    go_live_transcription.Translation.Ocp.check_types
    go_live_transcription.Translation.Ocp.get_task_types
    go_live_transcription.Translation.Ocp.new_ocp_translator
    go_live_transcription.Translation.Ocp.check_pair go_live_transcription.Translation.Ocp.has_value
    go_live_transcription.GoMap.insert go_live_transcription.Sending.Transcript.forward
    go_live_transcription.Translation.Meta.fan_out go_live_transcription.GoMap.delete
    go_live_transcription.Translation.Meta.handle_translation
    go_live_transcription.Translation.Meta.remove_translator
    go_live_transcription.Translation.Meta.remove_translator_locked
    go_live_transcription.Translation.Meta.remove_session_from
    go_live_transcription.Translation.Ocp.copy_sessions
    go_live_transcription.Translation.Ocp.session_ids
    go_live_transcription.Translation.Ocp.add_session_id
    go_live_transcription.Translation.Ocp.remove_session_id
    go_live_transcription.Translation.Ocp.has_sessions
one_translation = refl

abbrev first_speaks : String → Bool
first_speaks sid = sid == "h1"

abbrev own_language : String → String → Bool
own_language nc lang = (nc == "n1" && lang == "de") || (nc == "n2" && lang == "fr")

flow_run-suits_example :
    let end = flow_run talk begins in
    (all_suit first_speaks own_language end.taken ≡ true)
    × (length end.translate_in ≤ 100)
    × (length end.translate_out ≤ 100)
flow_run-suits_example = flow_run-suits first_speaks own_language talk "room" "en" refl
