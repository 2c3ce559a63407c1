-- ===== src/Tests/Languages.antt =====
-- The tables of languages at an input.
use go_live_transcription.Prelude.{◌≡◌}
use go_live_transcription.GoMap.{has}
use go_live_transcription.Languages.Model.{models_list}
use go_live_transcription.Languages.Supported.{vosk_supported_language_map, supported-lookup}

supported-lookup_example : has "ar_TN" vosk_supported_language_map ≡ has "ar_TN" models_list
supported-lookup_example = (supported-lookup "ar_TN").0
