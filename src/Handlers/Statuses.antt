-- ===== src/Handlers/Statuses.antt =====
-- What a request for another language does to the parts of a room (internal/handlers/handlers.go).
use go_live_transcription.Prelude.{
  ℕ, String, ◌==◌, eq_iff, ◌≡◌, refl, Bool, true, false, not, ◌||◌, Option, none, some, arith,
  Result, ok, err, eq_refl, [], ◌∷◌, Bool-cases, inl, inr, sym, subst,
}
use go_live_transcription.GoMap.{GoMap, has, lookup}
use go_live_transcription.Languages.Supported.{vosk_supported_language_map}
use go_live_transcription.Vosk.Models.{ModelManager, ModelDirectory, ModelError, get_model}
use go_live_transcription.Vosk.Manager.{
  TranscriberManager, Managed, set_language, switch_language, close_all,
}
use go_live_transcription.GoMap.Laws.{lookup-insert}
use go_live_transcription.Translation.Meta.{MetaTranslator, set_room_lang_id, renew_translators}
use go_live_transcription.Translation.Ocp.{OcpTranslator, new_ocp_translator}
use go_live_transcription.Vosk.Recognizer.{Recognizer}
use go_live_transcription.Service.Application.{
  Application, RoomState, set_call_language, set_language_found, switch_room,
}
use go_live_transcription.Handlers.{
  RoomLanguageSetRequest, handle_set_call_language, set_unless, status_ok, error_status,
}

-- All recognizers are for a language.
abbrev pub AllHear : String → GoMap Recognizer → Type 0
AllHear lang [] = Unit
AllHear lang ((sid, r) ∷ rs) = (r.language ≡ lang) × AllHear lang rs

-- All translators translate from a language.
abbrev pub AllFrom : String → GoMap OcpTranslator → Type 0
AllFrom lang [] = Unit
AllFrom lang ((target, t) ∷ ts) = (t.origin_language ≡ lang) × AllFrom lang ts

-- The recognizers and the translators of a room have the languages that the room keeps for them.
pub record Coherent (rs : RoomState) : Type 0 where
  pub hears : AllHear rs.transcriber.language rs.transcriber.recognizers
  pub translates : AllFrom rs.meta.room_lang_id rs.meta.translators

-- All parts of a room have a language.
pub record Speaks (lang : String) (rs : RoomState) : Type 0 where
  pub announced : rs.client.room_lang_id ≡ lang
  pub recognized : rs.transcriber.language ≡ lang
  pub translated : rs.meta.room_lang_id ≡ lang
  pub coherent : Coherent rs

-- The recognizers and their language, after a language was taken.
abbrev Hearing : String → TranscriberManager → Type 0
Hearing lang tm = (tm.language ≡ lang) × AllHear lang tm.recognizers

switch-Hearing :
    (r : ModelManager × Result ModelError ℕ) (lang : String) (tm : TranscriberManager)
    → (switch_language r lang tm).1 ≡ none
    → Hearing lang (switch_language r lang tm).0.0
unfolding switch_language close_all
switch-Hearing (mm, err e) lang tm h = absurd (ground (arith, h))
switch-Hearing (mm, ok model) lang tm h = (refl, tt)

-- A language that is taken is the recognizers' language.
set_language-Hearing :
    (at : String → ModelDirectory) (lang : String) (tm : TranscriberManager) (mm : ModelManager)
    → AllHear tm.language tm.recognizers
    → (set_language at lang (tm, mm)).1 ≡ none
    → Hearing lang (set_language at lang (tm, mm)).0.0
unfolding set_language
set_language-Hearing at lang tm mm a h = elim (Bool-cases (lang == tm.language)) [
  | inl e ↦
      let same : lang ≡ tm.language = (eq_iff lang tm.language).0 e in
      rw (e, set_language) (sym same, subst (λ l. AllHear l tm.recognizers) (sym same) a)
  | inr e ↦
      rw (e, set_language) (switch-Hearing (get_model at lang mm) lang tm (ground (arith, h, e)))
]

translator-language :
    (lang : String) (m : MetaTranslator) → (set_room_lang_id lang m).room_lang_id ≡ lang
unfolding set_room_lang_id
translator-language lang m = ground (arith, eq_iff m.room_lang_id lang)

renew-AllFrom :
    (lang room : String) (ts : GoMap OcpTranslator) → AllFrom lang (renew_translators lang room ts)
unfolding renew_translators new_ocp_translator
renew-AllFrom lang room [] = tt
renew-AllFrom lang room ((target, t) ∷ ts) = (refl, renew-AllFrom lang room ts)

set_room-AllFrom :
    (lang : String) (m : MetaTranslator)
    → AllFrom m.room_lang_id m.translators
    → AllFrom lang (set_room_lang_id lang m).translators
unfolding set_room_lang_id
set_room-AllFrom lang m a = elim (Bool-cases (m.room_lang_id == lang)) [
  | inl e ↦
      rw (e, set_room_lang_id)
        (subst (λ l. AllFrom l m.translators) ((eq_iff m.room_lang_id lang).0 e) a)
  | inr e ↦ rw (e, set_room_lang_id) (renew-AllFrom lang m.room_token m.translators)
]

-- A room in the map with all its parts in a language.
abbrev pub SpeaksIn : String → String → Application → Type 0
SpeaksIn token lang app = (rs : RoomState) × (lookup token app.rooms ≡ some rs) × Speaks lang rs

switch_room-Speaks :
    (r : Managed × Option ModelError) (lang token : String) (rs : RoomState) (app : Application)
    → r.1 ≡ none
    → Hearing lang r.0.0
    → AllFrom rs.meta.room_lang_id rs.meta.translators
    → SpeaksIn token lang (switch_room r lang token rs app).0
unfolding switch_room go_live_transcription.Signaling.Client.set_room_lang_id
switch_room-Speaks ((tm, mm), some e) lang token rs app h k a = absurd (ground (arith, h))
switch_room-Speaks ((tm, mm), none) lang token rs app h (named, hears) a =
    let client = go_live_transcription.Signaling.Client.set_room_lang_id lang rs.client in
    let translated = translator-language lang rs.meta in
    let new : RoomState = record rs {
      client = client;
      transcriber = tm;
      meta = set_room_lang_id lang rs.meta;
    } in
    (
      new,
      ground (arith, eq_refl token, lookup-insert token token new app.rooms),
      record {
        announced = refl;
        recognized = named;
        translated = translated;
        coherent = record {
          hears = subst (λ l. AllHear l tm.recognizers) (sym named) hears;
          translates =
              subst (λ l. AllFrom l (set_room_lang_id lang rs.meta).translators) (sym translated)
                (set_room-AllFrom lang rs.meta a);
        };
      },
    )

switch_room-error :
    (r : Managed × Option ModelError) (lang token : String) (rs : RoomState) (app : Application)
    → (switch_room r lang token rs app).1 ≡ none
    → r.1 ≡ none
unfolding switch_room
switch_room-error ((tm, mm), some e) lang token rs app h = absurd (ground (arith, h))
switch_room-error ((tm, mm), none) lang token rs app h = refl

found-Speaks :
    (o : Option RoomState) (at : String → ModelDirectory) (token lang : String) (rs : RoomState)
    (app : Application)
    → o ≡ some rs
    → Coherent rs
    → (set_language_found o at token lang app).1 ≡ none
    → SpeaksIn token lang (set_language_found o at token lang app).0
unfolding set_language_found
found-Speaks none at token lang rs app e c h = absurd (ground (arith, e))
found-Speaks (some old) at token lang rs app e c h =
    let same : old ≡ rs = ground (arith, e) in
    let d : Coherent old = subst Coherent (sym same) c in
    let r = set_language at lang (old.transcriber, app.models) in
    let taken = switch_room-error r lang token old app h in
    switch_room-Speaks r lang token old app taken
      (set_language-Hearing at lang old.transcriber app.models d.hears taken) d.translates

error_status-ok : {E : Type 0} → (o : Option E) → error_status o ≡ status_ok → o ≡ none
error_status-ok none h = refl
error_status-ok (some e) h = absurd (omega (arith, h))

unless-Speaks :
    (refused : Bool) (at : String → ModelDirectory) (req : RoomLanguageSetRequest) (rs : RoomState)
    (app : Application)
    → lookup req.room_token app.rooms ≡ some rs
    → Coherent rs
    → (set_unless refused at req app).0 ≡ status_ok
    → SpeaksIn req.room_token req.lang_id (set_unless refused at req app).1
unfolding set_unless set_call_language
unless-Speaks true at req rs app e c h = absurd (omega (arith, h))
unless-Speaks false at req rs app e c h =
    found-Speaks (lookup req.room_token app.rooms) at req.room_token req.lang_id rs app e c (
      error_status-ok
        (set_language_found (lookup req.room_token app.rooms) at req.room_token req.lang_id app).1
        h)

-- A request for another language of a call that has a room, whose recognizers and translators have
-- the languages that the room keeps for them, answered with 200: afterwards the client announces the
-- language, every recognizer in the room's map is for it, every translator in the map translates from
-- it, and those made later will, since the room keeps it for both.
pub handle_set_call_language-Speaks :
    (at : String → ModelDirectory) (req : RoomLanguageSetRequest) (rs : RoomState)
    (app : Application)
    → lookup req.room_token app.rooms ≡ some rs
    → Coherent rs
    → (handle_set_call_language at (some req) app).0 ≡ status_ok
    → SpeaksIn req.room_token req.lang_id (handle_set_call_language at (some req) app).1
unfolding handle_set_call_language
handle_set_call_language-Speaks at req rs app e c h =
    unless-Speaks (req.lang_id == "" || not (has req.lang_id vosk_supported_language_map)) at req rs
      app e c h
