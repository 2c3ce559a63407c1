-- ===== src/Translation/Delivery.antt =====
-- A segment goes to each session once, in the session's own language (`runTranslation` of
-- internal/translation/meta.go).
use go_live_transcription.Prelude.{
  ℕ, ◌+◌, String, ◌==◌, eq_iff, eq_refl, ◌≡◌, refl, true, false, not, ◌||◌, ◌&&◌, Option, none,
  some, List, [], ◌∷◌, arith, Result, ok, err, inl, inr, ◌∙◌, Bool-cases, if◌then◌else◌, is_some,
  sym, ap, subst,
}
use go_live_transcription.GoMap.{GoMap, lookup, insert, has}
use go_live_transcription.GoMap.Laws.{
  has_of_is_empty, has-cons, lookup-cons, Distinct, insert-Distinct, delete-Distinct,
}
use go_live_transcription.Translation.Ocp.{
  OcpTranslator, Fetch, Error, session_ids, remove_session_id,
}
use go_live_transcription.Translation.Meta.{
  MetaTranslator, TranslateInputOutput, new_meta_translator, add_translator, is_translation_target,
  remove_translator, renew_translators, set_room_lang_id, shutdown, fan_out, remove_session_from,
  join_translator, keep_supported, find_translator, remove_translator_locked, assign_translator,
  switch_translator, forget_session,
}
use go_live_transcription.Translation.Agreement.{serves, is_lang, sessions_of}
use go_live_transcription.Translation.Sessions.{
  Call, adds, removes, sets_room_language, asks_languages, shuts_down, step, run, copy-has,
  get_languages-keeps, run-new-Agrees,
}

-- The jobs that carry a segment to a session.
abbrev pub jobs_for : String → List TranslateInputOutput → ℕ
jobs_for nc [] = 0
jobs_for nc (job ∷ jobs) = (if has nc job.target_nc_session_ids then 1 else 0) + jobs_for nc jobs

-- The list of translators serves the session in the language `o`, if any, and in no other.
abbrev pub ServesOnly : String → Option String → GoMap OcpTranslator → Type 0
ServesOnly nc o ts = (lang : String) → serves nc lang ts ≡ is_lang o lang

rest-serves :
    (nc k lang : String) (t : OcpTranslator) (ts : GoMap OcpTranslator)
    → has k ts ≡ false
    → serves nc lang ts ≡ (not (k == lang) && serves nc lang ((k, t) ∷ ts))
unfolding has
rest-serves nc k lang t ts h =
    ground
      (arith, h, lookup-cons lang k t ts, eq_iff k lang, has_of_is_empty nc (sessions_of none) refl)

serves-cons :
    (nc k : String) (t : OcpTranslator) (ts : GoMap OcpTranslator)
    → serves nc k ((k, t) ∷ ts) ≡ has nc t.nc_session_ids
serves-cons nc k t ts = ground (arith, lookup-cons k k t ts, eq_refl k)

-- Behind the translator that serves the session stands none that does.
rest-nobody :
    (nc k : String) (o : Option String) (t : OcpTranslator) (ts : GoMap OcpTranslator)
    → has k ts ≡ false
    → has nc t.nc_session_ids ≡ true
    → ServesOnly nc o ((k, t) ∷ ts)
    → ServesOnly nc none ts
rest-nobody nc k none t ts d here h lang = ground (arith, here, h k, serves-cons nc k t ts)
rest-nobody nc k (some l) t ts d here h lang = ground (
  arith,
  h k,
  h lang,
  here,
  serves-cons nc k t ts,
  rest-serves nc k lang t ts d,
  eq_iff l k,
  eq_iff l lang,
  eq_iff k lang,
)

rest-same :
    (nc k : String) (o : Option String) (t : OcpTranslator) (ts : GoMap OcpTranslator)
    → has k ts ≡ false
    → has nc t.nc_session_ids ≡ false
    → ServesOnly nc o ((k, t) ∷ ts)
    → ServesOnly nc o ts
rest-same nc k o t ts d elsewhere h lang =
    ground
      (arith, h lang, elsewhere, serves-cons nc k t ts, rest-serves nc k lang t ts d, eq_iff k lang)

serves_nil : (nc l : String) → serves nc l [] ≡ false
unfolding lookup has
serves_nil nc l = refl

jobs-count :
    (nc : String) (seg : TranslateInputOutput) (o : Option String) (ts : GoMap OcpTranslator)
    → Distinct ts
    → ServesOnly nc o ts
    → jobs_for nc (fan_out seg ts) ≡ (if is_some o then 1 else 0)
unfolding fan_out session_ids
jobs-count nc seg none [] d h = refl
jobs-count nc seg (some l) [] d h = ground (arith, h l, eq_refl l, serves_nil nc l)
jobs-count nc seg o ((k, t) ∷ ts) d h = elim (Bool-cases (has nc t.nc_session_ids)) [
  | inl here ↦ ground (
    arith,
    here,
    h k,
    serves-cons nc k t ts,
    copy-has nc [] t.nc_session_ids,
    jobs-count nc seg none ts d.1 (rest-nobody nc k o t ts d.0 here h),
  )
  | inr elsewhere ↦ ground (
    arith,
    elsewhere,
    copy-has nc [] t.nc_session_ids,
    has_of_is_empty nc (sessions_of none) refl,
    jobs-count nc seg o ts d.1 (rest-same nc k o t ts d.0 elsewhere h),
  )
]

remove_from-Distinct :
    (o : Option OcpTranslator) (l k : String) (ts : GoMap OcpTranslator)
    → Distinct ts
    → Distinct (remove_session_from o l k ts)
unfolding remove_session_from
remove_from-Distinct none l k ts d = d
remove_from-Distinct (some t) l k ts d =
    ground (arith, insert-Distinct l (remove_session_id k t) ts d, delete-Distinct l ts d)

find-Distinct :
    (o : Option OcpTranslator) (now : ℕ) (f : Fetch) (l k : String) (m : MetaTranslator)
    → Distinct m.translators
    → Distinct (find_translator o now f l k m).0.translators
unfolding find_translator join_translator
find-Distinct (some t) now f l k m d = insert-Distinct l _ m.translators d
find-Distinct none now f l k m d = kept _
  where
    kept :
        (r : OcpTranslator × Result Error (Unit {0}))
        → Distinct (keep_supported r l k m).0.translators
    kept (t, ok _) = insert-Distinct l _ m.translators d
    kept (t, err e) = d

switch-Distinct :
    (o : Option String) (now : ℕ) (f : Fetch) (l k : String) (m : MetaTranslator)
    → Distinct m.translators
    → Distinct (switch_translator o now f l k m).0.translators
unfolding switch_translator assign_translator remove_translator_locked
switch-Distinct none now f l k m d = find-Distinct (lookup l m.translators) now f l k _ d
switch-Distinct (some old) now f l k m d =
    let ts = remove_session_from (lookup old m.translators) old k m.translators in
    let n : MetaTranslator = record m {
      translators = ts;
      sid_lang_map = insert k l m.sid_lang_map;
    } in
    ground (
      arith,
      d,
      find-Distinct (lookup l ts) now f l k n
          (remove_from-Distinct (lookup old m.translators) old k m.translators d),
    )

forget-Distinct :
    (o : Option String) (k : String) (m : MetaTranslator)
    → Distinct m.translators
    → Distinct (forget_session o k m).translators
unfolding forget_session remove_translator_locked
forget-Distinct none k m d = d
forget-Distinct (some old) k m d =
    ground (arith, remove_from-Distinct (lookup old m.translators) old k m.translators d)

has-renew :
    (j l room : String) (ts : GoMap OcpTranslator) → has j (renew_translators l room ts) ≡ has j ts
unfolding renew_translators
has-renew j l room [] = refl
has-renew j l room ((k, t) ∷ ts) =
    has-cons j k _ (renew_translators l room ts)
    ∙ ap (λ b. k == j || b) (has-renew j l room ts)
    ∙ sym (has-cons j k t ts)

renew-Distinct :
    (l room : String) (ts : GoMap OcpTranslator)
    → Distinct ts
    → Distinct (renew_translators l room ts)
unfolding renew_translators
renew-Distinct l room [] d = tt
renew-Distinct l room ((k, t) ∷ ts) d = (has-renew k l room ts ∙ d.0, renew-Distinct l room ts d.1)

step-Distinct :
    (k : Call) (m : MetaTranslator) → Distinct m.translators → Distinct (step k m).translators
unfolding step shutdown add_translator remove_translator set_room_lang_id
step-Distinct (adds now f l k) m d = switch-Distinct (lookup k m.sid_lang_map) now f l k m d
step-Distinct (removes k) m d = forget-Distinct (lookup k m.sid_lang_map) k m d
step-Distinct (sets_room_language l) m d =
    ground (arith, d, renew-Distinct l m.room_token m.translators d)
step-Distinct (asks_languages now f) m d =
    subst Distinct (sym (get_languages-keeps now f m).translators) d
step-Distinct shuts_down m d = d

run-Distinct :
    (ks : List Call) (m : MetaTranslator) → Distinct m.translators → Distinct (run ks m).translators
unfolding run
run-Distinct [] m d = d
run-Distinct (k ∷ ks) m d = run-Distinct ks (step k m) (step-Distinct k m d)

-- After any history of calls, a segment is handed to exactly one translation job for a session that
-- is a translation target, and to none for another session.
pub jobs_once :
    (ks : List Call) (room room_lang nc : String) (seg : TranslateInputOutput)
    → let m = run ks (new_meta_translator room room_lang) in
      jobs_for nc (fan_out seg m.translators) ≡ (if is_translation_target nc m then 1 else 0)
unfolding new_meta_translator is_translation_target has
jobs_once ks room room_lang nc seg =
    let m = run ks (new_meta_translator room room_lang) in
    jobs-count nc seg (lookup nc m.sid_lang_map) m.translators (run-Distinct ks _ tt)
      (run-new-Agrees ks room room_lang nc)
