-- ===== src/Vosk/Manager.antt =====
-- The recognizers of a room (`TranscriberManager` of internal/vosk/recognizer.go). Its operations
-- also change the models of the process, which are passed along.
use go_live_transcription.Prelude.{
  ℕ, String, ◌==◌, Option, none, some, List, [], ◌∷◌, if◌then◌else◌, Result, ok, err,
}
use go_live_transcription.GoMap.{GoMap, lookup, insert, delete}
use go_live_transcription.Vosk.Models.{
  ModelManager, ModelError, ModelDirectory, get_model, release_model,
}
use go_live_transcription.Vosk.Recognizer.{Recognizer, new_recognizer, close_recognizer}

pub record TranscriberManager : Type 0 where
  pub recognizers : GoMap Recognizer  -- by session
  pub language : String
  pub sample_rate : ℕ
  -- recognizers that were closed
  pub closed : List Recognizer

unfoldable pub new_transcriber_manager : String → ℕ → TranscriberManager
new_transcriber_manager lang rate = record {
  recognizers = [];
  language = lang;
  sample_rate = rate;
  closed = [];
}

-- The room and the models of the process.
abbrev pub Managed : Type 0
Managed = TranscriberManager × ModelManager

pub data CreateError : Type 0 where
  model_error : ModelError → CreateError
  recognizer_error : CreateError

-- The rest of `GetOrCreate` from the model and the answer of `vosk.NewRecognizer`.
unfoldable pub make_recognizer :
    ModelManager × Result ModelError ℕ
    → Option ℕ
    → String
    → TranscriberManager
    → Managed × Result CreateError Recognizer
make_recognizer (mm, err e) made sid tm = ((tm, mm), err (model_error e))
make_recognizer (mm, ok model) none sid tm =
    ((tm, release_model tm.language mm), err recognizer_error)
make_recognizer (mm, ok model) (some rec) sid tm =
    let r = new_recognizer rec model sid tm.language tm.sample_rate in
    ((record tm { recognizers = insert sid r tm.recognizers }, mm), ok r)

unfoldable pub find_or_make :
    Option Recognizer
    → (String → ModelDirectory)
    → Option ℕ
    → String
    → Managed
    → Managed × Result CreateError Recognizer
unfolding make_recognizer
find_or_make (some r) at made sid (tm, mm) = ((tm, mm), ok r)
find_or_make none at made sid (tm, mm) = make_recognizer (get_model at tm.language mm) made sid tm

unfoldable pub get_or_create :
    (String → ModelDirectory)
    → Option ℕ
    → String
    → Managed
    → Managed × Result CreateError Recognizer
unfolding find_or_make
get_or_create at made sid (tm, mm) = find_or_make (lookup sid tm.recognizers) at made sid (tm, mm)

unfoldable pub drop_recognizer : Option Recognizer → String → Managed → Managed
drop_recognizer none sid (tm, mm) = (tm, mm)
drop_recognizer (some r) sid (tm, mm) = (
  record tm { recognizers = delete sid tm.recognizers; closed = close_recognizer r ∷ tm.closed },
  release_model tm.language mm,
)

unfoldable pub remove : String → Managed → Managed
unfolding drop_recognizer
remove sid (tm, mm) = drop_recognizer (lookup sid tm.recognizers) sid (tm, mm)

-- The loop over the recognizers that closes each and gives its model back.
unfoldable pub close_each :
    String → GoMap Recognizer → List Recognizer × ModelManager → List Recognizer × ModelManager
close_each lang [] (closed, mm) = (closed, mm)
close_each lang ((sid, r) ∷ rs) (closed, mm) =
    close_each lang rs (close_recognizer r ∷ closed, release_model lang mm)

unfoldable pub close_all : Managed → Managed
unfolding close_each
close_all (tm, mm) =
    let rest = close_each tm.language tm.recognizers (tm.closed, mm) in
    (record tm { recognizers = []; closed = rest.0 }, rest.1)

-- The rest of `SetLanguage` from the new model.
unfoldable pub switch_language :
    ModelManager × Result ModelError ℕ → String → TranscriberManager → Managed × Option ModelError
unfolding close_all
switch_language (mm, err e) lang tm = ((tm, mm), some e)
switch_language (mm, ok model) lang tm =
    let closed = close_all (tm, mm) in
    ((record (closed.0) { language = lang }, release_model lang closed.1), none)

unfoldable pub set_language :
    (String → ModelDirectory) → String → Managed → Managed × Option ModelError
unfolding switch_language
set_language at lang (tm, mm) =
    if lang == tm.language then ((tm, mm), none) else switch_language (get_model at lang mm) lang tm
