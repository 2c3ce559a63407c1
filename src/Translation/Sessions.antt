-- ===== src/Translation/Sessions.antt =====
-- Every session is served in one language at most, and exactly while it is a translation target,
-- along any history of calls (internal/translation/meta.go).
use go_live_transcription.Prelude.{
  ℕ, String, ◌≡◌, refl, ◌||◌, Option, none, some, List, [], ◌∷◌, arith, Result, ok, err,
}
use go_live_transcription.GoMap.{GoMap, GoSet, lookup, has, add}
use go_live_transcription.GoMap.Laws.{has-insert, has_of_is_empty, has-cons}
use go_live_transcription.Translation.Ocp.{
  OcpTranslator, Fetch, Error, new_ocp_translator, session_ids, copy_sessions,
  SupportedTranslationLanguages, get_translation_languages,
}
use go_live_transcription.Translation.Meta.{
  MetaTranslator, new_meta_translator, add_translator, remove_translator, renew_translators,
  set_room_lang_id, shutdown, get_languages, fetch_languages, languages_from, LangsCache,
}
use go_live_transcription.Translation.Agreement.{
  Agrees, serves, sessions_of, add_translator-Agrees, remove_translator-Agrees,
}

pub copy-has :
    (nc : String) (acc s : GoSet) → has nc (copy_sessions acc s) ≡ (has nc acc || has nc s)
unfolding copy_sessions
copy-has nc acc [] = ground (arith, has_of_is_empty nc (sessions_of none) refl)
copy-has nc acc ((k, u) ∷ s) =
    ground (arith, copy-has nc (add k acc) s, has-insert k nc tt acc, has-cons nc k u s)

renew-serves :
    (nc lang l room : String) (ts : GoMap OcpTranslator)
    → serves nc lang (renew_translators l room ts) ≡ serves nc lang ts
unfolding renew_translators lookup new_ocp_translator session_ids
renew-serves nc lang l room [] = refl
renew-serves nc lang l room ((target, old) ∷ ts) = ground (
  arith,
  renew-serves nc lang l room ts,
  copy-has nc [] (copy_sessions [] old.nc_session_ids),
  copy-has nc [] old.nc_session_ids,
  has_of_is_empty nc (sessions_of none) refl,
)

set_room-Agrees :
    (l nc lang : String) (m : MetaTranslator)
    → Agrees nc lang m
    → Agrees nc lang (set_room_lang_id l m)
unfolding set_room_lang_id
set_room-Agrees l nc lang m a = ground (arith, a, renew-serves nc lang l m.room_token m.translators)

pub data Call : Type 0 where
  adds : ℕ → Fetch → String → String → Call
  removes sets_room_language : String → Call
  asks_languages : ℕ → Fetch → Call
  shuts_down : Call

unfoldable pub step : Call → MetaTranslator → MetaTranslator
step (adds now f lang nc) m = (add_translator now f lang nc m).0
step (removes nc) m = remove_translator nc m
step (sets_room_language l) m = set_room_lang_id l m
step (asks_languages now f) m = (get_languages now f m).0
step shuts_down m = shutdown m

unfoldable pub run : List Call → MetaTranslator → MetaTranslator
run [] m = m
run (k ∷ ks) m = run ks (step k m)

-- What a call leaves alone that only looks the languages up.
pub record SameSessions (m n : MetaTranslator) : Type 0 where
  pub translators : n.translators ≡ m.translators
  pub sid_lang_map : n.sid_lang_map ≡ m.sid_lang_map
  pub flags : (n.should_translate ≡ m.should_translate) × (n.running ≡ m.running)

fetch-keeps :
    (now : ℕ) (r : OcpTranslator × Result Error SupportedTranslationLanguages) (m : MetaTranslator)
    → SameSessions m (fetch_languages now r m).0
unfolding fetch_languages
fetch-keeps now (t, ok langs) m = ground arith
fetch-keeps now (t, err e) m = ground arith

languages_from-keeps :
    (c : Option LangsCache) (now : ℕ) (f : Fetch) (m : MetaTranslator)
    → SameSessions m (languages_from c now f m).0
unfolding languages_from
languages_from-keeps none now f m =
    fetch-keeps now
      (get_translation_languages now f (new_ocp_translator m.room_lang_id "en" m.room_token)) m
languages_from-keeps (some c) now f m = ground (
  arith,
  fetch-keeps now
      (get_translation_languages now f (new_ocp_translator m.room_lang_id "en" m.room_token)) m,
)

pub get_languages-keeps :
    (now : ℕ) (f : Fetch) (m : MetaTranslator) → SameSessions m (get_languages now f m).0
unfolding get_languages
get_languages-keeps now f m = languages_from-keeps m.langs_cache now f m

step-Agrees :
    (k : Call) (nc lang : String) (m : MetaTranslator)
    → Agrees nc lang m
    → Agrees nc lang (step k m)
unfolding step shutdown
step-Agrees (adds now f l k) nc lang m a = add_translator-Agrees now f l k nc lang m a
step-Agrees (removes k) nc lang m a = remove_translator-Agrees k nc lang m a
step-Agrees (sets_room_language l) nc lang m a = set_room-Agrees l nc lang m a
step-Agrees (asks_languages now f) nc lang m a = ground (arith, a, get_languages-keeps now f m)
step-Agrees shuts_down nc lang m a = ground arith

run-Agrees :
    (ks : List Call) (nc lang : String) (m : MetaTranslator)
    → Agrees nc lang m
    → Agrees nc lang (run ks m)
unfolding run
run-Agrees [] nc lang m a = a
run-Agrees (k ∷ ks) nc lang m a = run-Agrees ks nc lang (step k m) (step-Agrees k nc lang m a)

-- After any history of calls on a new object, failed ones included, a session is served by the
-- translator of the language that it asked for last and was granted, and by no other; a session
-- that is no translation target is served by none.
pub run-new-Agrees :
    (ks : List Call) (room room_lang nc lang : String)
    → Agrees nc lang (run ks (new_meta_translator room room_lang))
unfolding new_meta_translator lookup
run-new-Agrees ks room room_lang nc lang =
    run-Agrees ks nc lang _ (has_of_is_empty nc (sessions_of none) refl)
