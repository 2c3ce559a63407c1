-- ===== src/Translation/Agreement.antt =====
-- The two maps of a `MetaTranslator` (internal/translation/meta.go) agree: a session is served by
-- the translator of its own target language and by no other.
use go_live_transcription.Prelude.{
  ℕ, String, ◌==◌, eq_iff, ◌≡◌, refl, Bool, true, false, not, ◌||◌, ◌&&◌, Option, none, some, [],
  arith, Result, ok, err, ◌∙◌,
}
use go_live_transcription.GoMap.{GoMap, GoSet, lookup, insert, delete, has}
use go_live_transcription.GoMap.Laws.{
  lookup-insert, lookup-delete, has-insert, has-delete, has_of_is_empty,
}
use go_live_transcription.Translation.Ocp.{
  OcpTranslator, Fetch, Error, new_ocp_translator, add_session_id, remove_session_id, has_sessions,
  is_language_pair_supported, receive_task_types, get_task_types_from, get_task_types,
  TaskTypesCache, TaskTypesResponse, unreachable, malformed, fetched, check_types, check_pair,
  check_target,
}
use go_live_transcription.Translation.Meta.{
  MetaTranslator, remove_session_from, remove_translator_locked, join_translator, keep_supported,
  find_translator, assign_translator, switch_translator, add_translator, forget_session,
  remove_translator,
}

-- The sessions of the translator for a language.
abbrev pub sessions_of : Option OcpTranslator → GoSet
sessions_of none = []
sessions_of (some t) = t.nc_session_ids

abbrev pub serves : String → String → GoMap OcpTranslator → Bool
serves nc lang ts = has nc (sessions_of (lookup lang ts))

abbrev pub is_lang : Option String → String → Bool
is_lang none lang = false
is_lang (some l) lang = l == lang

-- The session `nc` is served in the language `lang` exactly when that is its target language.
abbrev pub Agrees : String → String → MetaTranslator → Type 0
Agrees nc lang m = serves nc lang m.translators ≡ is_lang (lookup nc m.sid_lang_map) lang

serves-remove :
    (o : Option OcpTranslator) (l k nc lang : String) (ts : GoMap OcpTranslator)
    → lookup l ts ≡ o
    → serves nc lang (remove_session_from o l k ts)
      ≡ (not (l == lang && k == nc) && serves nc lang ts)
unfolding remove_session_from remove_session_id has_sessions
serves-remove none l k nc lang ts e =
    ground (arith, eq_iff l lang, has_of_is_empty nc (sessions_of none) refl)
serves-remove (some t) l k nc lang ts e =
    let u = delete k t.nc_session_ids in
    ground (
      arith,
      eq_iff l lang,
      lookup-insert l lang (remove_session_id k t) ts,
      lookup-delete l lang ts,
      has-delete k nc t.nc_session_ids,
      has_of_is_empty nc u,
    )

-- Joining a translator that serves what the map serves in its language adds one session to it.
serves-join :
    (l k nc lang : String) (t : OcpTranslator) (m : MetaTranslator)
    → has nc t.nc_session_ids ≡ serves nc l m.translators
    → serves nc lang (join_translator l k t m).translators
      ≡ ((l == lang && k == nc) || serves nc lang m.translators)
unfolding join_translator add_session_id
serves-join l k nc lang t m e = ground (
  arith,
  e,
  eq_iff l lang,
  lookup-insert l lang (add_session_id k t) m.translators,
  has-insert k nc tt t.nc_session_ids,
)

-- The same language and the same sessions.
abbrev pub SameTargets : OcpTranslator → OcpTranslator → Type 0
SameTargets u t = (u.nc_session_ids ≡ t.nc_session_ids) × (u.target_language ≡ t.target_language)

receive-SameTargets :
    (now : ℕ) (f : Fetch) (t : OcpTranslator) → SameTargets (receive_task_types now f t).0 t
unfolding receive_task_types
receive-SameTargets now unreachable t = (refl, refl)
receive-SameTargets now malformed t = (refl, refl)
receive-SameTargets now (fetched r) t = ground arith

get_types-SameTargets :
    (c : Option TaskTypesCache) (now : ℕ) (f : Fetch) (t : OcpTranslator)
    → SameTargets (get_task_types_from c now f t).0 t
unfolding get_task_types_from
get_types-SameTargets none now f t = receive-SameTargets now f t
get_types-SameTargets (some c) now f t = ground (arith, receive-SameTargets now f t)

check-SameTargets :
    (r : OcpTranslator × Result Error TaskTypesResponse) → SameTargets (check_types r).0 r.0
unfolding check_types check_pair check_target
check-SameTargets (t, err e) = (refl, refl)
check-SameTargets (t, ok r) = ground arith

-- The check of the languages leaves the language and the sessions of a translator alone.
pub supported-SameTargets :
    (now : ℕ) (f : Fetch) (t : OcpTranslator) → SameTargets (is_language_pair_supported now f t).0 t
unfolding is_language_pair_supported get_task_types
supported-SameTargets now f t =
    let types = get_task_types_from t.task_types_cache now f t in
    let checked = check-SameTargets types in
    let got = get_types-SameTargets t.task_types_cache now f t in
    (checked.0 ∙ got.0, checked.1 ∙ got.1)

-- A session that is not served may be given any language; the others are left alone.
record Free (k nc lang : String) (m : MetaTranslator) : Type 0 where
  others : (k == nc) ≡ false → Agrees nc lang m
  unserved : (k == nc) ≡ true → serves nc lang m.translators ≡ false

module _ (l k nc lang : String) (m : MetaTranslator) (v : Free k nc lang m) where
  abbrev assigned : MetaTranslator
  assigned = record m { sid_lang_map = insert k l m.sid_lang_map }

  join-Agrees :
      (t : OcpTranslator)
      → has nc t.nc_session_ids ≡ serves nc l m.translators
      → Agrees nc lang (join_translator l k t assigned)
  unfolding join_translator
  join-Agrees t e = ground (
    arith,
    v,
    serves-join l k nc lang t assigned e,
    lookup-insert k nc l m.sid_lang_map,
    eq_iff k nc,
  )

  keep-Agrees :
      (r : OcpTranslator × Result Error (Unit {0}))
      → has nc r.0.nc_session_ids ≡ serves nc l m.translators
      → Agrees nc lang (keep_supported r l k assigned).0
  unfolding keep_supported
  keep-Agrees (t, ok _) e = join-Agrees t e
  keep-Agrees (t, err x) e = ground (
    arith,
    v,
    lookup-insert k nc l m.sid_lang_map,
    lookup-delete k nc (insert k l m.sid_lang_map),
    eq_iff k nc,
  )

  find-Agrees :
      (o : Option OcpTranslator) (now : ℕ) (f : Fetch)
      → lookup l m.translators ≡ o
      → Agrees nc lang (find_translator o now f l k assigned).0
  unfolding find_translator new_ocp_translator
  find-Agrees (some t) now f e = join-Agrees t (ground (arith, e))
  find-Agrees none now f e = keep-Agrees _ (
      ground
        (arith, e, supported-SameTargets now f (new_ocp_translator m.room_lang_id l m.room_token)))

  assign-Agrees : (now : ℕ) (f : Fetch) → Agrees nc lang (assign_translator now f l k m).0
  unfolding assign_translator
  assign-Agrees now f = find-Agrees (lookup l m.translators) now f refl

remove_locked-Free :
    (old k nc lang : String) (m : MetaTranslator)
    → lookup k m.sid_lang_map ≡ some old
    → Agrees nc lang m
    → Free k nc lang (remove_translator_locked old k m)
unfolding remove_translator_locked
remove_locked-Free old k nc lang m e a = ground (
  arith,
  a,
  e,
  serves-remove (lookup old m.translators) old k nc lang m.translators refl,
  eq_iff k nc,
)

switch-Agrees :
    (o : Option String) (now : ℕ) (f : Fetch) (l k nc lang : String) (m : MetaTranslator)
    → lookup k m.sid_lang_map ≡ o
    → Agrees nc lang m
    → Agrees nc lang (switch_translator o now f l k m).0
unfolding switch_translator
switch-Agrees none now f l k nc lang m e a =
    assign-Agrees l k nc lang m (ground (arith, a, e, eq_iff k nc)) now f
switch-Agrees (some old) now f l k nc lang m e a = ground (
  arith,
  a,
  assign-Agrees l k nc lang (remove_translator_locked old k m)
      (remove_locked-Free old k nc lang m e a) now f,
)

pub add_translator-Agrees :
    (now : ℕ) (f : Fetch) (l k nc lang : String) (m : MetaTranslator)
    → Agrees nc lang m
    → Agrees nc lang (add_translator now f l k m).0
unfolding add_translator
add_translator-Agrees now f l k nc lang m a =
    switch-Agrees (lookup k m.sid_lang_map) now f l k nc lang m refl a

forget-Agrees :
    (o : Option String) (k nc lang : String) (m : MetaTranslator)
    → lookup k m.sid_lang_map ≡ o
    → Agrees nc lang m
    → Agrees nc lang (forget_session o k m)
unfolding forget_session remove_translator_locked
forget-Agrees none k nc lang m e a = a
forget-Agrees (some old) k nc lang m e a = ground (
  arith,
  a,
  e,
  serves-remove (lookup old m.translators) old k nc lang m.translators refl,
  lookup-delete k nc m.sid_lang_map,
  eq_iff k nc,
)

pub remove_translator-Agrees :
    (k nc lang : String) (m : MetaTranslator)
    → Agrees nc lang m
    → Agrees nc lang (remove_translator k m)
unfolding remove_translator
remove_translator-Agrees k nc lang m a = forget-Agrees (lookup k m.sid_lang_map) k nc lang m refl a
