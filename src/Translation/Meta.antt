-- ===== src/Translation/Meta.antt =====
-- The translators of one call, internal/translation/meta.go. The mutex is held for whole
-- operations; `running` says that the cancel function of the translation goroutine is not nil.
use go_live_transcription.Prelude.{
  ℕ, ◌-◌, String, ◌==◌, Bool, true, false, not, Option, none, some, List, [], ◌∷◌, ◌++◌,
  if◌then◌else◌, ltb, Result, ok, err, length,
}
use go_live_transcription.Constants.{cache_translation_langs_for}
use go_live_transcription.GoMap.{GoMap, GoSet, lookup, insert, delete, has, is_empty}
use go_live_transcription.Translation.Ocp.{
  OcpTranslator, Fetch, Error, SupportedTranslationLanguages, new_ocp_translator, add_session_id,
  remove_session_id, session_ids, copy_sessions, has_sessions, is_language_pair_supported,
  get_translation_languages,
}

pub record LangsCache : Type 0 where
  pub time : ℕ
  pub langs : SupportedTranslationLanguages

pub record MetaTranslator : Type 0 where
  pub translators : GoMap OcpTranslator  -- by target language
  pub sid_lang_map : GoMap String  -- Nextcloud session to target language
  pub room_token : String
  pub room_lang_id : String
  pub should_translate : Bool
  pub langs_cache : Option LangsCache
  pub running : Bool

unfoldable pub new_meta_translator : String → String → MetaTranslator
new_meta_translator room lang = record {
  translators = [];
  sid_lang_map = [];
  room_token = room;
  room_lang_id = lang;
  should_translate = false;
  langs_cache = none;
  running = false;
}

-- `removeTranslatorLocked`, on the translators.
unfoldable pub remove_session_from :
    Option OcpTranslator → String → String → GoMap OcpTranslator → GoMap OcpTranslator
remove_session_from none lang nc ts = ts
remove_session_from (some t) lang nc ts =
    let u = remove_session_id nc t in if has_sessions u then insert lang u ts else delete lang ts

unfoldable pub remove_translator_locked : String → String → MetaTranslator → MetaTranslator
remove_translator_locked lang nc m = record m {
  translators = remove_session_from (lookup lang m.translators) lang nc m.translators;
}

-- The end of `AddTranslator`: the session joins the translator, and the goroutine runs.
unfoldable pub join_translator : String → String → OcpTranslator → MetaTranslator → MetaTranslator
join_translator lang nc t m = record m {
  translators = insert lang (add_session_id nc t) m.translators;
  should_translate = true;
  running = true;
}

-- A translator that was just made is kept only if its pair of languages is supported.
unfoldable pub keep_supported :
    OcpTranslator × Result Error (Unit {0})
    → String
    → String
    → MetaTranslator
    → MetaTranslator × Option Error
unfolding join_translator
keep_supported (t, ok _) lang nc m = (join_translator lang nc t m, none)
keep_supported (t, err e) lang nc m = (record m { sid_lang_map = delete nc m.sid_lang_map }, some e)

unfoldable pub find_translator :
    Option OcpTranslator
    → ℕ
    → Fetch
    → String
    → String
    → MetaTranslator
    → MetaTranslator × Option Error
unfolding keep_supported
find_translator (some t) now f lang nc m = (join_translator lang nc t m, none)
find_translator none now f lang nc m =
    keep_supported
      (is_language_pair_supported now f (new_ocp_translator m.room_lang_id lang m.room_token)) lang
      nc m

-- `AddTranslator` from the assignment to `sidLangMap` on.
unfoldable pub assign_translator :
    ℕ → Fetch → String → String → MetaTranslator → MetaTranslator × Option Error
assign_translator now f lang nc m =
    let n = record m { sid_lang_map = insert nc lang m.sid_lang_map } in
    find_translator (lookup lang n.translators) now f lang nc n

unfoldable pub switch_translator :
    Option String → ℕ → Fetch → String → String → MetaTranslator → MetaTranslator × Option Error
switch_translator none now f lang nc m = assign_translator now f lang nc m
switch_translator (some existing) now f lang nc m =
    if existing == lang
    then (m, none)
    else assign_translator now f lang nc (remove_translator_locked existing nc m)

unfoldable pub add_translator :
    ℕ → Fetch → String → String → MetaTranslator → MetaTranslator × Option Error
add_translator now f lang nc m = switch_translator (lookup nc m.sid_lang_map) now f lang nc m

unfoldable pub is_translation_target : String → MetaTranslator → Bool
is_translation_target nc m = has nc m.sid_lang_map

unfoldable pub is_translating : MetaTranslator → Bool
is_translating m = not (is_empty m.sid_lang_map)

-- `stopRunning` and the flag that goes with it.
unfoldable pub stop : MetaTranslator → MetaTranslator
stop m = record m { should_translate = false; running = false }

unfoldable pub forget_session : Option String → String → MetaTranslator → MetaTranslator
unfolding stop
forget_session none nc m = m
forget_session (some lang) nc m =
    let n = remove_translator_locked lang nc m in
    let o = record n { sid_lang_map = delete nc n.sid_lang_map } in
    if is_empty o.sid_lang_map then stop o else o

unfoldable pub remove_translator : String → MetaTranslator → MetaTranslator
unfolding forget_session
remove_translator nc m = forget_session (lookup nc m.sid_lang_map) nc m

-- The loop of `SetRoomLangID`: each translator is made anew for the room's language and given the
-- sessions of the old one.
unfoldable pub renew_translators : String → String → GoMap OcpTranslator → GoMap OcpTranslator
renew_translators lang room [] = []
renew_translators lang room ((target, old) ∷ ts) =
    let new = new_ocp_translator lang target room in
    (target, record new { nc_session_ids = copy_sessions new.nc_session_ids (session_ids old) })
    ∷ renew_translators lang room ts

unfoldable pub set_room_lang_id : String → MetaTranslator → MetaTranslator
set_room_lang_id lang m = if m.room_lang_id == lang then m else record m {
  room_lang_id = lang;
  langs_cache = none;
  translators = renew_translators lang m.room_token m.translators;
}

unfoldable pub shutdown : MetaTranslator → MetaTranslator
unfolding stop
shutdown m = stop m

unfoldable pub fetch_languages :
    ℕ
    → OcpTranslator × Result Error SupportedTranslationLanguages
    → MetaTranslator
    → MetaTranslator × Result Error SupportedTranslationLanguages
fetch_languages now (t, ok langs) m =
    (record m { langs_cache = some (record { time = now; langs = langs }) }, ok langs)
fetch_languages now (t, err e) m = (m, err e)

unfoldable pub languages_from :
    Option LangsCache
    → ℕ
    → Fetch
    → MetaTranslator
    → MetaTranslator × Result Error SupportedTranslationLanguages
unfolding fetch_languages
languages_from none now f m =
    fetch_languages now
      (get_translation_languages now f (new_ocp_translator m.room_lang_id "en" m.room_token)) m
languages_from (some cache) now f m =
    if ltb (now - cache.time) cache_translation_langs_for
    then (m, ok cache.langs)
    else fetch_languages now
        (get_translation_languages now f (new_ocp_translator m.room_lang_id "en" m.room_token)) m

unfoldable pub get_languages :
    ℕ → Fetch → MetaTranslator → MetaTranslator × Result Error SupportedTranslationLanguages
unfolding languages_from
get_languages now f m = languages_from m.langs_cache now f m

-- `TranslateInputOutput` of internal/transcript/types.go.
pub record TranslateInputOutput : Type 0 where
  pub origin_language : String
  pub target_language : String
  pub message : String
  pub speaker_session_id : String
  pub target_nc_session_ids : GoSet

-- The loop of `runTranslation` over the translators: the jobs that it starts for one segment.
unfoldable pub fan_out : TranslateInputOutput → GoMap OcpTranslator → List TranslateInputOutput
fan_out seg [] = []
fan_out seg ((_, t) ∷ ts) =
    record seg { target_language = t.target_language; target_nc_session_ids = session_ids t }
    ∷ fan_out seg ts

-- `handleTranslation`: the outgoing channel after it, from the channel's contents and capacity and
-- the answer of `Translate`. Where the channel is full the segment is dropped.
unfoldable pub handle_translation :
    ℕ
    → Result Error String
    → TranslateInputOutput
    → List TranslateInputOutput
    → List TranslateInputOutput
handle_translation capacity (err e) seg out = out
handle_translation capacity (ok translated) seg out =
    if ltb (length out) capacity then out ++ record seg { message = translated } ∷ [] else out
