-- ===== src/Translation/Detection.antt =====
-- What a change of the room's language does to translations whose source language has to be detected
-- (`SetRoomLangID` of internal/translation/meta.go, `IsLanguagePairSupported` of
-- internal/translation/ocp.go).
use go_live_transcription.Prelude.{
  ℕ, String, ◌==◌, ◌≡◌, ◌≢◌, refl, ap, ◌∙◌, true, false, some, [], ◌∷◌, arith, ok, ne-eq_false,
  Bool-cases, inl, inr,
}
use go_live_transcription.GoMap.{GoMap, lookup}
use go_live_transcription.Translation.Ocp.{
  OcpTranslator, copy_sessions, session_ids, fetched, TaskType, TaskTypesResponse,
  new_ocp_translator, translate_task_type, auto_detect_origin_lang_id, has_value, values_of,
  is_language_pair_supported, check_types, check_pair, check_target, get_task_types,
  get_task_types_from, receive_task_types,
}
use go_live_transcription.Translation.Task.{sched_body}
use go_live_transcription.Translation.Meta.{MetaTranslator, set_room_lang_id, renew_translators}

renewed :
    (lang room target : String) (old : OcpTranslator) (ts : GoMap OcpTranslator)
    → lookup target ts ≡ some old
    → (u : OcpTranslator) × (lookup target (renew_translators lang room ts) ≡ some u)
      × (u.ocp_origin_lang_id ≡ lang)
unfolding renew_translators lookup new_ocp_translator
renewed lang room target old [] e = absurd (ground (arith, e))
renewed lang room target old ((k, v) ∷ ts) e = elim (Bool-cases (k == target)) [
  | inl same ↦
      let new = new_ocp_translator lang k room in
      rw same (
        record new { nc_session_ids = copy_sessions new.nc_session_ids (session_ids v) },
        refl,
        refl,
      )
  | inr other ↦ rw other (renewed lang room target old ts (ground (arith, e, other)))
]

detected_pair :
    (type : TaskType) (t : OcpTranslator)
    → has_value t.origin_language (values_of "origin_language" type) ≡ false
    → has_value auto_detect_origin_lang_id (values_of "origin_language" type) ≡ true
    → has_value t.target_language (values_of "target_language" type) ≡ true
    → ((check_pair type t).1 ≡ ok tt)
      × ((check_pair type t).0.ocp_origin_lang_id ≡ auto_detect_origin_lang_id)
unfolding check_pair check_target
detected_pair type t no_origin auto supported = rw (no_origin, auto, supported) (refl, refl)

received :
    (now : ℕ) (r : TaskTypesResponse) (type : TaskType) (t : OcpTranslator)
    → lookup translate_task_type r.types ≡ some type
    → receive_task_types now (fetched r) t
      ≡ (record t { task_types_cache = some (record { time = now; types = r }) }, ok r)
unfolding receive_task_types
received now r type t e = rw e refl

checked :
    (r : TaskTypesResponse) (type : TaskType) (t : OcpTranslator)
    → lookup translate_task_type r.types ≡ some type
    → check_types (t, ok r) ≡ check_pair type t
unfolding check_types
checked r type t e = ground (arith, e)

detected :
    (now : ℕ) (r : TaskTypesResponse) (type : TaskType) (lang target room : String)
    → lookup translate_task_type r.types ≡ some type
    → has_value lang (values_of "origin_language" type) ≡ false
    → has_value auto_detect_origin_lang_id (values_of "origin_language" type) ≡ true
    → has_value target (values_of "target_language" type) ≡ true
    → let made = is_language_pair_supported now (fetched r) (new_ocp_translator lang target room) in
      (made.1 ≡ ok tt) × (made.0.ocp_origin_lang_id ≡ auto_detect_origin_lang_id)
unfolding is_language_pair_supported get_task_types get_task_types_from new_ocp_translator
detected now r type lang target room e no_origin auto supported =
    let new = new_ocp_translator lang target room in
    let cached : OcpTranslator = record new {
      task_types_cache = some (record { time = now; types = r });
    } in
    let same = ap check_types (received now r type new e) ∙ checked r type cached e in
    rw same (detected_pair type cached no_origin auto supported)

-- Nextcloud translates to the target language, from languages that do not include the room's new one
-- and from one that is detected. A translator that is made for the new language then asks for the
-- detection; the one that the change of the language puts in the place of an old translator asks for
-- the new language itself, which Nextcloud does not have.
pub changed_language_is_not_detected :
    (now : ℕ) (r : TaskTypesResponse) (type : TaskType) (lang target message : String)
    (old : OcpTranslator) (m : MetaTranslator)
    → lookup translate_task_type r.types ≡ some type
    → has_value lang (values_of "origin_language" type) ≡ false
    → has_value auto_detect_origin_lang_id (values_of "origin_language" type) ≡ true
    → has_value target (values_of "target_language" type) ≡ true
    → m.room_lang_id ≢ lang
    → lookup target m.translators ≡ some old
    → let made =
        is_language_pair_supported now (fetched r) (new_ocp_translator lang target m.room_token) in
      (made.1 ≡ ok tt)
      × ((sched_body message made.0).origin_language ≡ auto_detect_origin_lang_id)
      × ((u : OcpTranslator) × (lookup target (set_room_lang_id lang m).translators ≡ some u)
          × ((sched_body message u).origin_language ≡ lang))
unfolding sched_body set_room_lang_id
changed_language_is_not_detected now r type lang target message old m e no_origin auto supported
      other there =
    let made = detected now r type lang target m.room_token e no_origin auto supported in
    (
      made.0,
      made.1,
      rw (ne-eq_false m.room_lang_id lang other)
          (renewed lang m.room_token target old m.translators there),
    )
