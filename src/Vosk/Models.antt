-- ===== src/Vosk/Models.antt =====
-- The models that are loaded, with their reference counts (internal/vosk/model.go). The one
-- `ModelManager` of the process serves all rooms. Models are numbered as Vosk gives them out.
use go_live_transcription.Prelude.{
  ℕ, ◌+◌, ◌-◌, String, Option, none, some, List, [], ◌∷◌, if◌then◌else◌, leb, Result, ok, err,
}
use go_live_transcription.GoMap.{GoMap, lookup, insert, delete}
use go_live_transcription.Languages.Model.{models_list}

pub record ModelEntry : Type 0 where
  pub model : ℕ
  pub ref_count : ℕ

pub record ModelManager : Type 0 where
  pub models : GoMap ModelEntry  -- by language
  -- models given back to Vosk
  pub freed : List ℕ

-- What the directory of a model gives: it is not there, Vosk does not load it, or the model.
pub data ModelDirectory : Type 0 where
  not_there not_loadable : ModelDirectory
  loads : ℕ → ModelDirectory

pub data ModelError : Type 0 where
  no_model no_directory load_failed : ModelError

unfoldable pub new_model_manager : ModelManager
new_model_manager = record { models = []; freed = [] }

unfoldable pub load_model :
    ModelDirectory → String → ModelManager → ModelManager × Result ModelError ℕ
load_model not_there lang mm = (mm, err no_directory)
load_model not_loadable lang mm = (mm, err load_failed)
load_model (loads model) lang mm = (
  record mm { models = insert lang (record { model = model; ref_count = 1 }) mm.models },
  ok model,
)

-- `GetModel` from the lookup of the language's directory on; `at` tells what is in a directory.
unfoldable pub find_model :
    Option String
    → (String → ModelDirectory)
    → String
    → ModelManager
    → ModelManager × Result ModelError ℕ
unfolding load_model
find_model none at lang mm = (mm, err no_model)
find_model (some dir) at lang mm = load_model (at dir) lang mm

unfoldable pub share_model :
    Option ModelEntry
    → (String → ModelDirectory)
    → String
    → ModelManager
    → ModelManager × Result ModelError ℕ
unfolding find_model
share_model (some entry) at lang mm = (
  record mm { models = insert lang (record entry { ref_count = entry.ref_count + 1 }) mm.models },
  ok entry.model,
)
share_model none at lang mm = find_model (lookup lang models_list) at lang mm

unfoldable pub get_model :
    (String → ModelDirectory) → String → ModelManager → ModelManager × Result ModelError ℕ
unfolding share_model
get_model at lang mm = share_model (lookup lang mm.models) at lang mm

unfoldable pub drop_reference : Option ModelEntry → String → ModelManager → ModelManager
drop_reference none lang mm = mm
drop_reference (some entry) lang mm =
    let count = entry.ref_count - 1 in
    if leb count 0
    then record mm { models = delete lang mm.models; freed = entry.model ∷ mm.freed }
    else record mm { models = insert lang (record entry { ref_count = count }) mm.models }

unfoldable pub release_model : String → ModelManager → ModelManager
unfolding drop_reference
release_model lang mm = drop_reference (lookup lang mm.models) lang mm
