-- ===== src/Translation/Ocp.antt =====
-- One translator, internal/translation/ocp.go. The requests to Nextcloud are not part of the model:
-- what they answer is an argument, and so is the clock, in nanoseconds.
use go_live_transcription.Prelude.{
  ℕ, ◌-◌, String, ◌==◌, Bool, false, not, ◌||◌, Option, none, some, List, [], ◌∷◌, if◌then◌else◌,
  ltb, Result, ok, err, is_some,
}
use go_live_transcription.Constants.{cache_translation_task_types}
use go_live_transcription.GoMap.{GoMap, GoSet, lookup, insert, delete, add, is_empty}
use go_live_transcription.Languages.Model.{LanguageModel}
use go_live_transcription.Languages.Table.{language_map}
use go_live_transcription.Languages.Supported.{vosk_supported_language_map}

abbrev pub translate_task_type : String
translate_task_type = "core:text2text:translate"

abbrev pub auto_detect_origin_lang_id : String
auto_detect_origin_lang_id = "detect_language"

pub data Error : Type 0 where
  -- `ErrTranslateFatal`, `ErrTranslateLangPair`, `ErrTranslate`
  translate_fatal translate_lang_pair translate : Error

pub record SupportedTranslationLanguages : Type 0 where
  pub origin_languages : GoMap LanguageModel
  pub target_languages : GoMap LanguageModel

pub record InputShapeEnum : Type 0 where
  pub name : String
  pub value : String

pub record TaskType : Type 0 where
  pub input_shape_enum_values : GoMap (List InputShapeEnum)

pub record TaskTypesResponse : Type 0 where
  pub types : GoMap TaskType

pub record TaskTypesCache : Type 0 where
  pub time : ℕ
  pub types : TaskTypesResponse

pub record OcpTranslator : Type 0 where
  pub origin_language : String
  pub target_language : String
  pub room_token : String
  pub ocp_origin_lang_id : String
  pub nc_session_ids : GoSet
  pub task_types_cache : Option TaskTypesCache

unfoldable pub new_ocp_translator : String → String → String → OcpTranslator
new_ocp_translator origin target room = record {
  origin_language = origin;
  target_language = target;
  room_token = room;
  ocp_origin_lang_id = origin;
  nc_session_ids = [];
  task_types_cache = none;
}

unfoldable pub add_session_id : String → OcpTranslator → OcpTranslator
add_session_id nc t = record t { nc_session_ids = add nc t.nc_session_ids }

unfoldable pub remove_session_id : String → OcpTranslator → OcpTranslator
remove_session_id nc t = record t { nc_session_ids = delete nc t.nc_session_ids }

-- `SessionIDs`: the loop that copies the set.
unfoldable pub copy_sessions : GoSet → GoSet → GoSet
copy_sessions acc [] = acc
copy_sessions acc ((nc, _) ∷ s) = copy_sessions (add nc acc) s

unfoldable pub session_ids : OcpTranslator → GoSet
session_ids t = copy_sessions [] t.nc_session_ids

unfoldable pub has_sessions : OcpTranslator → Bool
has_sessions t = not (is_empty t.nc_session_ids)

-- The answer to the request for the task types: no answer, one that does not parse, or the types.
pub data Fetch : Type 0 where
  unreachable malformed : Fetch
  fetched : TaskTypesResponse → Fetch

-- What `getTaskTypes` makes of the answer.
unfoldable pub receive_task_types :
    ℕ → Fetch → OcpTranslator → OcpTranslator × Result Error TaskTypesResponse
receive_task_types now unreachable t = (t, err translate_fatal)
receive_task_types now malformed t = (t, err translate)
receive_task_types now (fetched r) t =
    if is_some (lookup translate_task_type r.types)
    then (record t { task_types_cache = some (record { time = now; types = r }) }, ok r)
    else (t, err translate_fatal)

unfoldable pub get_task_types_from :
    Option TaskTypesCache
    → ℕ
    → Fetch
    → OcpTranslator
    → OcpTranslator × Result Error TaskTypesResponse
unfolding receive_task_types
get_task_types_from none now f t = receive_task_types now f t
get_task_types_from (some cache) now f t =
    if ltb (now - cache.time) cache_translation_task_types
    then (t, ok cache.types)
    else receive_task_types now f t

unfoldable pub get_task_types :
    ℕ → Fetch → OcpTranslator → OcpTranslator × Result Error TaskTypesResponse
unfolding get_task_types_from
get_task_types now f t = get_task_types_from t.task_types_cache now f t

-- Whether a value is among those of an input; both loops of `IsLanguagePairSupported` ask this.
unfoldable pub has_value : String → List InputShapeEnum → Bool
has_value v [] = false
has_value v (e ∷ es) = e.value == v || has_value v es

-- `m[k]` of a map of lists: a missing key gives the empty list.
abbrev pub or_nil : Option (List InputShapeEnum) → List InputShapeEnum
or_nil none = []
or_nil (some es) = es

abbrev pub values_of : String → TaskType → List InputShapeEnum
values_of input type = or_nil (lookup input type.input_shape_enum_values)

-- The check of the target language.
unfoldable pub check_target : TaskType → OcpTranslator → OcpTranslator × Result Error (Unit {0})
check_target type t =
    if has_value t.target_language (values_of "target_language" type)
    then (t, ok tt)
    else (t, err translate_lang_pair)

-- The check of both languages against the type of task.
unfoldable pub check_pair : TaskType → OcpTranslator → OcpTranslator × Result Error (Unit {0})
unfolding check_target
check_pair type t =
    let origins = values_of "origin_language" type in
    if has_value t.origin_language origins
    then check_target type t
    else (if has_value auto_detect_origin_lang_id origins
        then check_target type (record t { ocp_origin_lang_id = auto_detect_origin_lang_id })
        else (t, err translate_lang_pair))

unfoldable pub check_types :
    OcpTranslator × Result Error TaskTypesResponse → OcpTranslator × Result Error (Unit {0})
check_types (t, err e) = (t, err e)
check_types (t, ok r) = elim (lookup translate_task_type r.types) [
  | none ↦ (t, err translate_fatal)
  | some type ↦ check_pair type t
]

unfoldable pub is_language_pair_supported :
    ℕ → Fetch → OcpTranslator → OcpTranslator × Result Error (Unit {0})
is_language_pair_supported now f t = check_types (get_task_types now f t)

-- A language under its description, or under its own name where there is none.
abbrev pub described : Option LanguageModel → String → LanguageModel
described (some lm) value = lm
described none value = record { name = value; metadata = record { separator = " "; rtl = false } }

-- The two loops of `GetTranslationLanguages`, over the map that describes the languages.
unfoldable pub collect_languages :
    GoMap LanguageModel → List InputShapeEnum → GoMap LanguageModel → GoMap LanguageModel
collect_languages known [] acc = acc
collect_languages known (e ∷ es) acc =
    collect_languages known es (insert e.value (described (lookup e.value known) e.value) acc)

unfoldable pub languages_of :
    OcpTranslator × Result Error TaskTypesResponse
    → OcpTranslator × Result Error SupportedTranslationLanguages
languages_of (t, err e) = (t, err e)
languages_of (t, ok r) = elim (lookup translate_task_type r.types) [
  | none ↦ (t, err translate_fatal)
  | some type ↦ (
    t,
    ok (record {
      origin_languages =
          collect_languages vosk_supported_language_map (values_of "origin_language" type) [];
      target_languages = collect_languages language_map (values_of "target_language" type) [];
    }),
  )
]

unfoldable pub get_translation_languages :
    ℕ → Fetch → OcpTranslator → OcpTranslator × Result Error SupportedTranslationLanguages
get_translation_languages now f t = languages_of (get_task_types now f t)
