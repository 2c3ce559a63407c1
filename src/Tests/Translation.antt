-- ===== src/Tests/Translation.antt =====
-- The translators of a call: runs, and the theorems at inputs.
use go_live_transcription.Prelude.{
  String, ◌≡◌, refl, ok, true, false, none, some, List, [], ◌∷◌, if◌then◌else◌, ne_of_eq_false,
}
use go_live_transcription.GoMap.{lookup}
use go_live_transcription.Translation.Ocp.{
  OcpTranslator, auto_detect_origin_lang_id, fetched, TaskTypesResponse, InputShapeEnum,
  translate_lang_pair, is_language_pair_supported, new_ocp_translator, get_task_types, check_types,
  check_pair, has_value,
}
use go_live_transcription.Translation.Detection.{changed_language_is_not_detected}
use go_live_transcription.Translation.Task.{sched_body}
use go_live_transcription.Translation.Meta.{
  set_room_lang_id, MetaTranslator, TranslateInputOutput, new_meta_translator, add_translator,
  is_translating, fan_out, is_translation_target,
}
use go_live_transcription.Translation.Agreement.{serves, is_lang}
use go_live_transcription.Translation.Sessions.{Call, adds, run}
use go_live_transcription.Translation.Granted.{granted, check_error, GrantedOr, run-new-served}
use go_live_transcription.Translation.Delivery.{jobs_for, jobs_once}
use go_live_transcription.Translation.Running.{
  InStep, Serving, run-new-Flags, failed_switch_keeps_running,
}

abbrev value_of : String → InputShapeEnum
value_of v = record { name = v; value = v }

-- English to German or French.
abbrev pub types : TaskTypesResponse
types = record {
  types =
      (
        "core:text2text:translate",
        record {
          input_shape_enum_values =
              ("origin_language", value_of "en" ∷ [])
              ∷ ("target_language", value_of "de" ∷ value_of "fr" ∷ [])
              ∷ [];
        },
      )
      ∷ [];
}

abbrev pub history : List Call
history =
    adds 0 (fetched types) "de" "n1"
    ∷ adds 0 (fetched types) "fr" "n2"
    ∷ adds 0 (fetched types) "fr" "n1"
    ∷ adds 0 (fetched types) "xx" "n2"
    ∷ []

abbrev pub segment : TranslateInputOutput
segment = record {
  origin_language = "en";
  target_language = "";
  message = "hi";
  speaker_session_id = "h1";
  target_nc_session_ids = [];
}

run-new-served_example :
    let new = new_meta_translator "room" "en" in
    (lookup "n1" (run history new).sid_lang_map ≡ granted "n1" history new none)
    × (serves "n1" "fr" (run history new).translators
        ≡ is_lang (granted "n1" history new none) "fr")
    × GrantedOr
        (check_error 0 (fetched types) "xx" (run history new))
        (add_translator 0 (fetched types) "xx" "n1" (run history new)).1
run-new-served_example = run-new-served history "room" "en" "n1" "fr" "n1" "xx" 0 (fetched types)

jobs_once_example :
    jobs_for "n1" (fan_out segment (run history (new_meta_translator "room" "en")).translators)
    ≡ (if is_translation_target "n1" (run history (new_meta_translator "room" "en")) then 1 else 0)
jobs_once_example = jobs_once history "room" "en" "n1" segment

run-new-Flags_example :
    InStep (run history (new_meta_translator "room" "en"))
    × Serving (run history (new_meta_translator "room" "en"))
run-new-Flags_example = run-new-Flags history "room" "en" (refl, (refl, (refl, (refl, tt))))

-- One participant, served in German.
abbrev served : MetaTranslator
served = record {
  translators =
      ("de", record (new_ocp_translator "en" "de" "room") { nc_session_ids = ("n1", tt) ∷ [] })
      ∷ [];
  sid_lang_map = ("n1", "de") ∷ [];
  room_token = "room";
  room_lang_id = "en";
  should_translate = true;
  langs_cache = none;
  running = true;
}

failed_switch_keeps_running_example :
    ((add_translator 0 (fetched types) "xx" "n1" served).1 ≡ some translate_lang_pair)
    × (is_translating (add_translator 0 (fetched types) "xx" "n1" served).0 ≡ false)
    × ((add_translator 0 (fetched types) "xx" "n1" served).0.should_translate ≡ true)
    × ((add_translator 0 (fetched types) "xx" "n1" served).0.running ≡ true)
unfolding lookup is_language_pair_supported new_ocp_translator get_task_types check_types check_pair
    has_value
failed_switch_keeps_running_example =
    failed_switch_keeps_running 0 (fetched types) "xx" "n1" "de" translate_lang_pair served refl
      (ne_of_eq_false "de" "xx" refl) refl refl

-- From English or a language that is detected, to German.
abbrev detecting : TaskTypesResponse
detecting = record {
  types =
      (
        "core:text2text:translate",
        record {
          input_shape_enum_values =
              ("origin_language", value_of "en" ∷ value_of "detect_language" ∷ [])
              ∷ ("target_language", value_of "de" ∷ [])
              ∷ [];
        },
      )
      ∷ [];
}

abbrev in_english : MetaTranslator
in_english = record (new_meta_translator "room" "en") {
  translators = ("de", new_ocp_translator "en" "de" "room") ∷ [];
}

changed_language_is_not_detected_example :
    let made =
      is_language_pair_supported 9 (fetched detecting) (new_ocp_translator "eo" "de" "room") in
    (made.1 ≡ ok tt)
    × ((sched_body "saluton" made.0).origin_language ≡ auto_detect_origin_lang_id)
    × ((u : OcpTranslator) × (lookup "de" (set_room_lang_id "eo" in_english).translators ≡ some u)
        × ((sched_body "saluton" u).origin_language ≡ "eo"))
unfolding lookup has_value new_meta_translator
changed_language_is_not_detected_example =
    changed_language_is_not_detected 9 detecting
      (record {
        input_shape_enum_values =
            ("origin_language", value_of "en" ∷ value_of "detect_language" ∷ [])
            ∷ ("target_language", value_of "de" ∷ [])
            ∷ [];
      })
      "eo" "de" "saluton" (new_ocp_translator "en" "de" "room") in_english refl refl refl refl
      (ne_of_eq_false "en" "eo" refl) refl
