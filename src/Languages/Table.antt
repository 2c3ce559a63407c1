-- ===== src/Languages/Table.antt =====
-- `LanguageMap` of internal/languages/models.go: its four parts.
use go_live_transcription.Prelude.{◌++◌}
use go_live_transcription.GoMap.{GoMap}
use go_live_transcription.Languages.Model.{LanguageModel}
use go_live_transcription.Languages.First.{languages_first}
use go_live_transcription.Languages.Second.{languages_second}
use go_live_transcription.Languages.Third.{languages_third}
use go_live_transcription.Languages.Fourth.{languages_fourth}

unfoldable pub language_map : GoMap LanguageModel
unfolding languages_first languages_second languages_third languages_fourth
language_map = languages_first ++ (languages_second ++ (languages_third ++ languages_fourth))
