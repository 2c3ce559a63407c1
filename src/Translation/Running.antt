-- ===== src/Translation/Running.antt =====
-- When the translation goroutine runs (internal/translation/meta.go).
use go_live_transcription.Prelude.{
  ℕ, String, eq_refl, ◌≡◌, ◌≢◌, refl, Bool, true, false, Option, none, some, List, [], ◌∷◌, arith,
  Result, ok, err, ap, ◌∙◌, ne-eq_false,
}
use go_live_transcription.GoMap.{GoMap, lookup, insert, delete, is_empty}
use go_live_transcription.GoMap.Laws.{
  lookup-insert, lookup-delete, delete-insert, is_empty-delete, lookup-cons,
}
use go_live_transcription.Translation.Ocp.{
  OcpTranslator, Fetch, Error, new_ocp_translator, is_language_pair_supported, remove_session_id,
}
use go_live_transcription.Translation.Meta.{
  MetaTranslator, new_meta_translator, add_translator, remove_translator, set_room_lang_id,
  join_translator, keep_supported, find_translator, remove_translator_locked, remove_session_from,
  assign_translator, switch_translator, forget_session, is_translating,
}
use go_live_transcription.Translation.Sessions.{
  Call, adds, removes, sets_room_language, asks_languages, shuts_down, step, run,
  get_languages-keeps,
}

-- The goroutine runs exactly while the flag says so.
abbrev pub InStep : MetaTranslator → Type 0
InStep m = m.running ≡ m.should_translate

-- While there is a target, the flag is set.
abbrev pub Serving : MetaTranslator → Type 0
Serving m = is_translating m ≡ true → m.should_translate ≡ true

abbrev Flags : MetaTranslator → Type 0
Flags m = InStep m × Serving m

find-Flags :
    (o : Option OcpTranslator) (now : ℕ) (f : Fetch) (l k : String) (m : MetaTranslator)
    → InStep m
    → (is_empty (delete k m.sid_lang_map) ≡ false → m.should_translate ≡ true)
    → Flags (find_translator o now f l k m).0
unfolding find_translator join_translator is_translating
find-Flags (some t) now f l k m s v = ground arith
find-Flags none now f l k m s v = kept _
  where
    kept : (r : OcpTranslator × Result Error (Unit {0})) → Flags (keep_supported r l k m).0
    kept (t, ok _) = ground arith
    kept (t, err e) = ground arith

assign-Flags :
    (now : ℕ) (f : Fetch) (l k : String) (m : MetaTranslator)
    → Flags m
    → Flags (assign_translator now f l k m).0
unfolding assign_translator is_translating
assign-Flags now f l k m v =
    find-Flags (lookup l m.translators) now f l k _ v.0
      (ground (arith, v, delete-insert k l m.sid_lang_map, is_empty-delete k m.sid_lang_map))

switch-Flags :
    (o : Option String) (now : ℕ) (f : Fetch) (l k : String) (m : MetaTranslator)
    → Flags m
    → Flags (switch_translator o now f l k m).0
unfolding switch_translator remove_translator_locked
switch-Flags none now f l k m v = assign-Flags now f l k m v
switch-Flags (some old) now f l k m v =
    let w : Flags (remove_translator_locked old k m) = unfold is_translating in ground arith in
    ground (arith, v, assign-Flags now f l k (remove_translator_locked old k m) w)

forget-Flags :
    (o : Option String) (k : String) (m : MetaTranslator) → Flags m → Flags (forget_session o k m)
unfolding forget_session remove_translator_locked is_translating
forget-Flags none k m v = v
forget-Flags (some old) k m v = ground (arith, v, is_empty-delete k m.sid_lang_map)

abbrev pub is_shutdown : Call → Bool
is_shutdown shuts_down = true
is_shutdown _ = false

abbrev pub NoShutdown : List Call → Type 0
NoShutdown [] = Unit {0}
NoShutdown (k ∷ ks) = (is_shutdown k ≡ false) × NoShutdown ks

step-Flags : (k : Call) (m : MetaTranslator) → is_shutdown k ≡ false → Flags m → Flags (step k m)
unfolding step add_translator remove_translator set_room_lang_id is_translating
step-Flags (adds now f l k) m h v = switch-Flags (lookup k m.sid_lang_map) now f l k m v
step-Flags (removes k) m h v = forget-Flags (lookup k m.sid_lang_map) k m v
step-Flags (sets_room_language l) m h v = ground arith
step-Flags (asks_languages now f) m h v = ground (arith, v, get_languages-keeps now f m)
step-Flags shuts_down m h v = cc

run-Flags : (ks : List Call) (m : MetaTranslator) → NoShutdown ks → Flags m → Flags (run ks m)
unfolding run
run-Flags [] m h v = v
run-Flags (k ∷ ks) m h v = run-Flags ks (step k m) h.1 (step-Flags k m h.0 v)

-- After any history of calls without a shutdown the translation goroutine runs exactly while the
-- flag `shouldTranslate` is set, and both hold while there is a translation target.
pub run-new-Flags :
    (ks : List Call) (room room_lang : String)
    → NoShutdown ks
    → let m = run ks (new_meta_translator room room_lang) in InStep m × Serving m
unfolding new_meta_translator is_translating
run-new-Flags ks room room_lang h = run-Flags ks _ h (refl, λ e. cc)

removed_keeps :
    (l k : String) (m : MetaTranslator)
    → let n = remove_translator_locked l k m in
      (n.sid_lang_map ≡ m.sid_lang_map)
      × (n.should_translate ≡ m.should_translate)
      × (n.running ≡ m.running)
unfolding remove_translator_locked
removed_keeps l k m = (refl, refl, refl)

keep_refused :
    (r : OcpTranslator × Result Error (Unit {0})) (l k : String) (e : Error) (m : MetaTranslator)
    → r.1 ≡ err e
    → keep_supported r l k m ≡ (record m { sid_lang_map = delete k m.sid_lang_map }, some e)
unfolding keep_supported
keep_refused (t, ok _) l k e m h = cc
keep_refused (t, err x) l k e m h = ground arith

assign_refused :
    (now : ℕ) (f : Fetch) (l k : String) (e : Error) (m : MetaTranslator)
    → lookup l m.translators ≡ none
    → (is_language_pair_supported now f (new_ocp_translator m.room_lang_id l m.room_token)).1
      ≡ err e
    → assign_translator now f l k m
      ≡ (record m { sid_lang_map = delete k (insert k l m.sid_lang_map) }, some e)
unfolding assign_translator find_translator
assign_refused now f l k e m absent refused =
    rw (absent, assign_translator) (keep_refused _ l k e _ refused)

lookup-remove_from :
    (o : Option OcpTranslator) (l old k : String) (ts : GoMap OcpTranslator)
    → old ≢ l
    → lookup l ts ≡ none
    → lookup l (remove_session_from o old k ts) ≡ none
unfolding remove_session_from
lookup-remove_from none l old k ts other absent = absent
lookup-remove_from (some t) l old k ts other absent = ground (
  arith,
  absent,
  ne-eq_false old l other,
  lookup-insert old l (remove_session_id k t) ts,
  lookup-delete old l ts,
)

delete_only : {V : Type 0} (k : String) (v : V) → is_empty (delete k ((k, v) ∷ [])) ≡ true
unfolding delete
delete_only k v = ground (arith, eq_refl k)

-- The converse fails. When the only target asks for another language, that language has no
-- translator yet and is refused, the request fails, no target is left, and the flag stays set and
-- the goroutine running: final transcripts go on being queued for nobody.
pub failed_switch_keeps_running :
    (now : ℕ) (f : Fetch) (l k old : String) (e : Error) (m : MetaTranslator)
    → m.sid_lang_map ≡ (k, old) ∷ []
    → old ≢ l
    → lookup l m.translators ≡ none
    → (is_language_pair_supported now f (new_ocp_translator m.room_lang_id l m.room_token)).1
      ≡ err e
    → let r = add_translator now f l k m in
      (r.1 ≡ some e)
      × (is_translating r.0 ≡ false)
      × (r.0.should_translate ≡ m.should_translate)
      × (r.0.running ≡ m.running)
unfolding add_translator switch_translator is_translating
failed_switch_keeps_running now f l k old e m sids other absent refused =
    let n = remove_translator_locked old k m in
    let known : lookup k m.sid_lang_map ≡ some old =
      ap (lookup k) sids ∙ lookup-cons k k old [] ∙ ground (arith, eq_refl k) in
    ground (
      arith,
      known,
      ne-eq_false old l other,
      removed_keeps old k m,
      assign_refused now f l k e n
          (unfold remove_translator_locked in
            lookup-remove_from (lookup old m.translators) l old k m.translators other absent)
          (unfold remove_translator_locked in refused),
      delete-insert k l n.sid_lang_map,
      sids,
      delete_only k old,
    )
