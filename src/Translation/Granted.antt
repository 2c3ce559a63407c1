-- ===== src/Translation/Granted.antt =====
-- What a session has been granted along a history of calls, told from the answers that the callers
-- got, and that the translators serve exactly that (internal/translation/meta.go).
use go_live_transcription.Prelude.{
  ℕ, String, ◌==◌, eq_iff, ◌≡◌, refl, ◌∙◌, ◌⊎◌, inl, inr, ap, Option, none, some, List, [], ◌∷◌,
  arith, Result, ok, err, if◌then◌else◌, Bool-cases,
}
use go_live_transcription.GoMap.{lookup}
use go_live_transcription.GoMap.Laws.{lookup-insert, lookup-delete}
use go_live_transcription.Translation.Ocp.{
  OcpTranslator, Fetch, Error, new_ocp_translator, is_language_pair_supported,
}
use go_live_transcription.Translation.Meta.{
  MetaTranslator, new_meta_translator, add_translator, remove_translator, forget_session,
  switch_translator, assign_translator, find_translator, keep_supported, join_translator,
  remove_translator_locked, set_room_lang_id, shutdown,
}
use go_live_transcription.Translation.Agreement.{serves, is_lang}
use go_live_transcription.Translation.Sessions.{
  Call, adds, removes, sets_room_language, asks_languages, shuts_down, step, run,
  get_languages-keeps, run-new-Agrees,
}

-- A request without an error grants its language; one with an error leaves the session with none.
abbrev pub grants : String → Option Error → Option String
grants lang none = some lang
grants lang (some e) = none

-- The language of a session after a call, from the one before and the call's answer.
abbrev pub granted_by : String → Call → MetaTranslator → Option String → Option String
granted_by nc (adds now f lang k) m o =
    if k == nc then grants lang (add_translator now f lang k m).1 else o
granted_by nc (removes k) m o = if k == nc then none else o
granted_by nc (sets_room_language l) m o = o
granted_by nc (asks_languages now f) m o = o
granted_by nc shuts_down m o = o

-- The language that a session asked for last and was granted, along the calls from an object on.
abbrev pub granted : String → List Call → MetaTranslator → Option String → Option String
granted nc [] m o = o
granted nc (k ∷ ks) m o = granted nc ks (step k m) (granted_by nc k m o)

module _ (nc k lang : String) where
  -- The session of a request has afterwards what the answer says, the others what they had.
  abbrev Answered : MetaTranslator → MetaTranslator × Option Error → Type 0
  Answered m r =
      lookup nc r.0.sid_lang_map ≡ (if k == nc then grants lang r.1 else lookup nc m.sid_lang_map)

  find-Answered :
      (o : Option OcpTranslator) (now : ℕ) (f : Fetch) (m n : MetaTranslator)
      → lookup nc n.sid_lang_map ≡ (if k == nc then some lang else lookup nc m.sid_lang_map)
      → Answered m (find_translator o now f lang k n)
  unfolding find_translator join_translator
  find-Answered (some t) now f m n e = e
  find-Answered none now f m n e = kept _
    where
      kept : (r : OcpTranslator × Result Error (Unit {0})) → Answered m (keep_supported r lang k n)
      kept (t, ok _) = unfold keep_supported join_translator in e
      kept (t, err x) =
          unfold keep_supported in ground (arith, e, lookup-delete k nc n.sid_lang_map, eq_iff k nc)

  assign-Answered :
      (now : ℕ) (f : Fetch) (m n : MetaTranslator)
      → n.sid_lang_map ≡ m.sid_lang_map
      → Answered m (assign_translator now f lang k n)
  unfolding assign_translator
  assign-Answered now f m n e =
      find-Answered _ now f m (record n { sid_lang_map = _ })
        (ground (arith, e, lookup-insert k nc lang n.sid_lang_map, eq_iff k nc))

  switch-Answered :
      (o : Option String) (now : ℕ) (f : Fetch) (m : MetaTranslator)
      → lookup k m.sid_lang_map ≡ o
      → Answered m (switch_translator o now f lang k m)
  unfolding switch_translator remove_translator_locked
  switch-Answered none now f m e = assign-Answered now f m m refl
  switch-Answered (some old) now f m e = ground (
    arith,
    e,
    eq_iff k nc,
    eq_iff old lang,
    assign-Answered now f m (remove_translator_locked old k m) refl,
  )

  forget-granted :
      (o : Option String) (m : MetaTranslator)
      → lookup k m.sid_lang_map ≡ o
      → lookup nc (forget_session o k m).sid_lang_map
        ≡ (if k == nc then none else lookup nc m.sid_lang_map)
  unfolding forget_session remove_translator_locked
  forget-granted none m e = ground (arith, e, eq_iff k nc)
  forget-granted (some old) m e = ground (arith, eq_iff k nc, lookup-delete k nc m.sid_lang_map)

step-granted :
    (nc : String) (k : Call) (m : MetaTranslator)
    → lookup nc (step k m).sid_lang_map ≡ granted_by nc k m (lookup nc m.sid_lang_map)
unfolding step add_translator remove_translator set_room_lang_id shutdown
step-granted nc (adds now f l k) m = switch-Answered nc k l (lookup k m.sid_lang_map) now f m refl
step-granted nc (removes k) m = forget-granted nc k "" (lookup k m.sid_lang_map) m refl
step-granted nc (sets_room_language l) m = ground arith
step-granted nc (asks_languages now f) m = ap (lookup nc) (get_languages-keeps now f m).sid_lang_map
step-granted nc shuts_down m = refl

run-granted :
    (nc : String) (ks : List Call) (m : MetaTranslator)
    → lookup nc (run ks m).sid_lang_map ≡ granted nc ks m (lookup nc m.sid_lang_map)
unfolding run
run-granted nc [] m = refl
run-granted nc (k ∷ ks) m =
    run-granted nc ks (step k m) ∙ ap (granted nc ks (step k m)) (step-granted nc k m)

-- The error of an answer, if it is one.
abbrev pub error_of {ℓ} : {A : Type ℓ} → Result Error A → Option Error
error_of (ok a) = none
error_of (err e) = some e

-- The error, if any, with which the check of a pair of languages ends.
abbrev pub check_error : ℕ → Fetch → String → MetaTranslator → Option Error
check_error now f lang m =
    error_of
      (is_language_pair_supported now f (new_ocp_translator m.room_lang_id lang m.room_token)).1

-- A request is granted, or refused with the error of the check.
abbrev pub GrantedOr : Option Error → Option Error → Type 0
GrantedOr check answer = (answer ≡ none) ⊎ (answer ≡ check)

find-GrantedOr :
    (o : Option OcpTranslator) (now : ℕ) (f : Fetch) (lang k : String) (m : MetaTranslator)
    → GrantedOr (check_error now f lang m) (find_translator o now f lang k m).1
unfolding find_translator
find-GrantedOr (some t) now f lang k m = inl refl
find-GrantedOr none now f lang k m = kept _
  where
    kept :
        (r : OcpTranslator × Result Error (Unit {0}))
        → GrantedOr (error_of r.1) (keep_supported r lang k m).1
    kept (t, ok _) = unfold keep_supported in inl refl
    kept (t, err e) = unfold keep_supported in inr refl

switch-GrantedOr :
    (o : Option String) (now : ℕ) (f : Fetch) (lang k : String) (m : MetaTranslator)
    → GrantedOr (check_error now f lang m) (switch_translator o now f lang k m).1
unfolding switch_translator assign_translator remove_translator_locked
switch-GrantedOr none now f lang k m = find-GrantedOr (lookup lang m.translators) now f lang k _
switch-GrantedOr (some old) now f lang k m = elim (Bool-cases (old == lang)) [
  | inl e ↦ rw (e, switch_translator) (inl refl)
  | inr e ↦ rw (e, switch_translator) (find-GrantedOr _ now f lang k _)
]

-- After any history of calls on a new object, failed ones included, a session is in the map of
-- sessions with the language that it asked for last and was granted, as the answers to the requests
-- tell, since when it has neither been refused another nor been removed; it is served by the
-- translator of that language and by no other; one without such a language is served by none. The
-- next request, whoever makes it, is granted, or refused with the error with which the check of its
-- languages ends.
pub run-new-served :
    (ks : List Call) (room room_lang nc lang k l : String) (now : ℕ) (f : Fetch)
    → let new = new_meta_translator room room_lang in
      let m = run ks new in
      (lookup nc m.sid_lang_map ≡ granted nc ks new none)
      × (serves nc lang m.translators ≡ is_lang (granted nc ks new none) lang)
      × GrantedOr (check_error now f l m) (add_translator now f l k m).1
unfolding new_meta_translator lookup add_translator
run-new-served ks room room_lang nc lang k l now f =
    let new = new_meta_translator room room_lang in
    let m = run ks new in
    let e : lookup nc m.sid_lang_map ≡ granted nc ks new none = run-granted nc ks new in
    (
      e,
      run-new-Agrees ks room room_lang nc lang ∙ ap (λ o. is_lang o lang) e,
      switch-GrantedOr (lookup k m.sid_lang_map) now f l k m,
    )
