-- ===== src/Translation/Flow/Asked.antt =====
-- Nobody gets a translation that they have not asked for (internal/translation).
use go_live_transcription.Prelude.{
  ℕ, String, ◌==◌, eq_iff, ◌≡◌, refl, ap, Bool, true, ◌&&◌, Option, none, some, List, [], ◌∷◌, ◌++◌,
  Result, ok, err, arith, Bool-cases, inl, inr,
}
use go_live_transcription.GoMap.{GoMap, GoSet, lookup, insert, delete, add}
use go_live_transcription.Translation.Ocp.{
  OcpTranslator, Fetch, Error, new_ocp_translator, add_session_id, remove_session_id, copy_sessions,
  session_ids, is_language_pair_supported,
}
use go_live_transcription.Translation.Meta.{
  MetaTranslator, TranslateInputOutput, assign_translator, switch_translator, find_translator,
  keep_supported, join_translator, forget_session, remove_translator_locked, remove_session_from,
  stop, set_room_lang_id, renew_translators,
}
use go_live_transcription.Translation.Agreement.{supported-SameTargets}

-- All sessions of a set have a property.
abbrev pub all_of : (String → Bool) → GoSet → Bool
all_of p [] = true
all_of p ((k, v) ∷ s) = p k && all_of p s

all_of-add :
    (p : String → Bool) (k : String) (s : GoSet)
    → p k ≡ true
    → all_of p s ≡ true
    → all_of p (add k s) ≡ true
unfolding insert
all_of-add p k [] h a = ground (arith, h)
all_of-add p k ((j, v) ∷ s) h a = ground (arith, h, a, all_of-add p k s h)

all_of-delete :
    (p : String → Bool) (k : String) (s : GoSet) → all_of p s ≡ true → all_of p (delete k s) ≡ true
unfolding delete
all_of-delete p k [] a = refl
all_of-delete p k ((j, v) ∷ s) a = ground (arith, a, all_of-delete p k s)

pub all_of-copy :
    (p : String → Bool) (acc s : GoSet)
    → all_of p acc ≡ true
    → all_of p s ≡ true
    → all_of p (copy_sessions acc s) ≡ true
unfolding copy_sessions
all_of-copy p acc [] h a = h
all_of-copy p acc ((k, v) ∷ s) h a =
    all_of-copy p (add k acc) s (all_of-add p k acc (ground (arith, a)) h) (ground (arith, a))

-- `spoke` says who may have spoken, `asked` whether a session may have a language.
module _ (spoke : String → Bool) (asked : String → String → Bool) where
  -- A segment of such a speaker that goes only to sessions which may have its language.
  abbrev pub suits : TranslateInputOutput → Bool
  suits seg =
      spoke seg.speaker_session_id
      && all_of (λ nc. asked nc seg.target_language) seg.target_nc_session_ids

  abbrev pub all_suit : List TranslateInputOutput → Bool
  all_suit [] = true
  all_suit (seg ∷ segs) = suits seg && all_suit segs

  pub all_suit-append :
      (xs ys : List TranslateInputOutput) → all_suit (xs ++ ys) ≡ (all_suit xs && all_suit ys)
  all_suit-append [] ys = refl
  all_suit-append (x ∷ xs) ys = ground (arith, all_suit-append xs ys)

  -- A translator of its language, with sessions that may have it.
  abbrev pub Serves : String → OcpTranslator → Type 0
  Serves lang t =
      (t.target_language ≡ lang) × (all_of (λ nc. asked nc lang) t.nc_session_ids ≡ true)

  abbrev pub AllServe : GoMap OcpTranslator → Type 0
  AllServe [] = Unit {0}
  AllServe ((lang, t) ∷ ts) = Serves lang t × AllServe ts

  insert-AllServe :
      (lang : String) (t : OcpTranslator) (ts : GoMap OcpTranslator)
      → Serves lang t
      → AllServe ts
      → AllServe (insert lang t ts)
  unfolding insert
  insert-AllServe lang t [] s a = (s, tt)
  insert-AllServe lang t ((k, u) ∷ ts) s a = ground (arith, s, a, insert-AllServe lang t ts s a.1)

  delete-AllServe :
      (lang : String) (ts : GoMap OcpTranslator) → AllServe ts → AllServe (delete lang ts)
  unfolding delete
  delete-AllServe lang [] a = tt
  delete-AllServe lang ((k, u) ∷ ts) a = ground (arith, a, delete-AllServe lang ts a.1)

  lookup-AllServe :
      (lang : String) (t : OcpTranslator) (ts : GoMap OcpTranslator)
      → lookup lang ts ≡ some t
      → AllServe ts
      → Serves lang t
  unfolding lookup
  lookup-AllServe lang t [] e a = absurd (ground (arith, e))
  lookup-AllServe lang t ((k, u) ∷ ts) e a =
      ground (arith, e, a, eq_iff k lang, lookup-AllServe lang t ts)

  removed-AllServe :
      (o : Option OcpTranslator) (lang nc : String) (ts : GoMap OcpTranslator)
      → lookup lang ts ≡ o
      → AllServe ts
      → AllServe (remove_session_from o lang nc ts)
  unfolding remove_session_from remove_session_id
  removed-AllServe none lang nc ts e a = a
  removed-AllServe (some t) lang nc ts e a =
      let s = lookup-AllServe lang t ts e a in
      let u = remove_session_id nc t in
      let kept : Serves lang u = (s.0, all_of-delete (λ x. asked x lang) nc t.nc_session_ids s.1) in
      ground (arith, insert-AllServe lang u ts kept a, delete-AllServe lang ts a)

  joined-AllServe :
      (lang nc : String) (t : OcpTranslator) (m : MetaTranslator)
      → asked nc lang ≡ true
      → Serves lang t
      → AllServe m.translators
      → AllServe (join_translator lang nc t m).translators
  unfolding join_translator add_session_id
  joined-AllServe lang nc t m h s a =
      insert-AllServe lang (add_session_id nc t) m.translators
        (s.0, all_of-add (λ x. asked x lang) nc t.nc_session_ids h s.1) a

  renewed-AllServe :
      (lang room : String) (ts : GoMap OcpTranslator)
      → AllServe ts
      → AllServe (renew_translators lang room ts)
  unfolding renew_translators new_ocp_translator session_ids
  renewed-AllServe lang room [] a = tt
  renewed-AllServe lang room ((k, t) ∷ ts) a =
      let p : String → Bool = λ x. asked x k in
      let copied = all_of-copy p [] t.nc_session_ids refl a.0.1 in
      (
        (refl, all_of-copy p [] (copy_sessions [] t.nc_session_ids) refl copied),
        renewed-AllServe lang room ts a.1,
      )

  kept-AllServe :
      (r : OcpTranslator × Result Error (Unit {0})) (lang nc : String) (m : MetaTranslator)
      → asked nc lang ≡ true
      → Serves lang r.0
      → AllServe m.translators
      → AllServe (keep_supported r lang nc m).0.translators
  unfolding keep_supported
  kept-AllServe (t, ok _) lang nc m h s a = joined-AllServe lang nc t m h s a
  kept-AllServe (t, err e) lang nc m h s a = a

  found-AllServe :
      (o : Option OcpTranslator) (now : ℕ) (f : Fetch) (lang nc : String) (m : MetaTranslator)
      → lookup lang m.translators ≡ o
      → asked nc lang ≡ true
      → AllServe m.translators
      → AllServe (find_translator o now f lang nc m).0.translators
  unfolding find_translator new_ocp_translator
  found-AllServe (some t) now f lang nc m e h a =
      joined-AllServe lang nc t m h (lookup-AllServe lang t m.translators e a) a
  found-AllServe none now f lang nc m e h a =
      let new = new_ocp_translator m.room_lang_id lang m.room_token in
      let same = supported-SameTargets now f new in
      kept-AllServe (is_language_pair_supported now f new) lang nc m h
        (same.1, ap (all_of (λ x. asked x lang)) same.0) a

  pub switched-AllServe :
      (o : Option String) (now : ℕ) (f : Fetch) (lang nc : String) (m : MetaTranslator)
      → asked nc lang ≡ true
      → AllServe m.translators
      → AllServe (switch_translator o now f lang nc m).0.translators
  unfolding switch_translator assign_translator remove_translator_locked
  switched-AllServe none now f lang nc m h a =
      found-AllServe (lookup lang m.translators) now f lang nc
        (record m { sid_lang_map = insert nc lang m.sid_lang_map }) refl h a
  switched-AllServe (some old) now f lang nc m h a = elim (Bool-cases (old == lang)) [
    | inl same ↦ rw same a
    | inr other ↦
        let n = remove_translator_locked old nc m in
        let b = removed-AllServe (lookup old m.translators) old nc m.translators refl a in
        rw other (
          found-AllServe (lookup lang n.translators) now f lang nc
            (record n { sid_lang_map = insert nc lang n.sid_lang_map }) refl h b)
  ]

  pub forgot-AllServe :
      (o : Option String) (nc : String) (m : MetaTranslator)
      → AllServe m.translators
      → AllServe (forget_session o nc m).translators
  unfolding forget_session remove_translator_locked stop
  forgot-AllServe none nc m a = a
  forgot-AllServe (some lang) nc m a =
      ground (arith, removed-AllServe (lookup lang m.translators) lang nc m.translators refl a)

  pub language-AllServe :
      (lang : String) (m : MetaTranslator)
      → AllServe m.translators
      → AllServe (set_room_lang_id lang m).translators
  unfolding set_room_lang_id
  language-AllServe lang m a = ground (arith, a, renewed-AllServe lang m.room_token m.translators a)
