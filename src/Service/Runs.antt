-- ===== src/Service/Runs.antt =====
-- Whatever happens to the app, a room that has ended stays among those that have
-- (internal/service/service.go).
use mathlib.Core.List.{Memᴰ}
use go_live_transcription.Prelude.{
  Bool-cases, inl, inr, ◌==◌, ℕ, zero, suc, String, ◌≡◌, Bool, true, false, Option, none, some,
  List, [], ◌∷◌, arith, Result, ok, err,
}
use go_live_transcription.GoMap.{GoMap, lookup, insert}
use go_live_transcription.Signaling.Messages.{
  HpbSettings, SigConnectResult, success, failure, retry, no_reconnect,
}
use go_live_transcription.Signaling.Connect.{ConnectError, Connected, connect}
use go_live_transcription.Translation.Ocp.{Fetch, Error, SupportedTranslationLanguages}
use go_live_transcription.Translation.Meta.{MetaTranslator, new_meta_translator, get_languages}
use go_live_transcription.Vosk.Models.{ModelDirectory, ModelError}
use go_live_transcription.Vosk.Manager.{set_language, Managed}
use go_live_transcription.Service.Application.{
  RoomState, Application, close_room, stop_room, leave_found, leave_call, clean_found,
  leave_call_cb, end_each, shutdown_all, switch_room, set_language_found, set_call_language,
  set_target, set_target_found, set_target_language, wanted,
}
use go_live_transcription.Service.Request.{
  Answer, Endpoints, Attempt, request_in_room, new_room, connect_round, connect_loop, start_call,
  request_found, transcript_req, settings_or, with_client,
}
use go_live_transcription.Service.Languages.{
  room_languages, translation_languages_found, room_translation_languages,
}

module _ (gone : RoomState) where
  end_each-ended :
      (rooms : GoMap RoomState) (ended : List RoomState)
      → Memᴰ gone ended
      → Memᴰ gone (end_each rooms ended)
  unfolding end_each close_room
  end_each-ended [] ended a = a
  end_each-ended ((token, rs) ∷ rooms) ended a =
      end_each-ended rooms (stop_room (close_room rs) ∷ ended) (Memᴰ.tail a)

  clean-ended :
      (o : Option RoomState) (token : String) (app : Application)
      → Memᴰ gone app.ended
      → Memᴰ gone (clean_found o token app).ended
  unfolding clean_found
  clean-ended none token app a = a
  clean-ended (some rs) token app a =
      let t : Memᴰ gone (stop_room rs ∷ app.ended) = Memᴰ.tail a in ground (arith, a, t)

  module _ (hmac : String → String → String) where
    round-ended :
        (result : SigConnectResult) (r : Connected) (token nc : String) (rs : RoomState)
        (app : Application) (rest : Answer × Application)
        → Memᴰ gone app.ended
        → Memᴰ gone rest.1.ended
        → Memᴰ gone (connect_round result r token nc rs app rest).1.ended
    unfolding connect_round
    round-ended success r token nc rs app rest a b = a
    round-ended failure r token nc rs app rest a b = Memᴰ.tail a
    round-ended retry r token nc rs app rest a b = b

    loop-ended :
        (tries : ℕ) (attempts : ℕ → Attempt) (last : Option ConnectError) (token nc : String)
        (rs : RoomState) (app : Application)
        → Memᴰ gone app.ended
        → Memᴰ gone (connect_loop hmac tries attempts last token nc rs app).1.ended
    unfolding connect_loop
    loop-ended zero attempts last token nc rs app a = a
    loop-ended (suc tries) attempts last token nc rs app a =
        let x = attempts tries in
        let r = connect hmac x.nonce x.dialed x.frames no_reconnect rs.client in
        let rest =
          connect_loop hmac tries attempts r.error token nc (with_client r.client rs) app in
        round-ended r.result r token nc rs app rest a
          (loop-ended tries attempts r.error token nc (with_client r.client rs) app a)

    start-ended :
        (o : Option HpbSettings) (attempts : ℕ → Attempt) (ends : Endpoints)
        (token nc lang : String) (app : Application)
        → Memᴰ gone app.ended
        → Memᴰ gone (start_call hmac o attempts ends token nc lang app).1.ended
    unfolding start_call new_meta_translator
    start-ended none attempts ends token nc lang app a = a
    start-ended (some settings) attempts ends token nc lang app a =
        let rs = new_room ends settings token lang in
        loop-ended 5 attempts none token nc rs
          (record app { hpb_settings = some settings; rooms = insert token rs app.rooms }) a

    found-ended :
        (o : Option RoomState) (fetched : Option HpbSettings) (attempts : ℕ → Attempt)
        (ends : Endpoints) (token nc lang : String) (enable : Bool) (app : Application)
        → Memᴰ gone app.ended
        → Memᴰ gone (request_found hmac o fetched attempts ends token nc lang enable app).1.ended
    unfolding request_found request_in_room
    found-ended (some rs) fetched attempts ends token nc lang enable app a = ground (arith, a)
    found-ended none fetched attempts ends token nc lang false app a = a
    found-ended none fetched attempts ends token nc lang true app a =
        start-ended (settings_or hmac app.hpb_settings fetched) attempts ends token nc lang app a

  language-ended :
      (o : Option RoomState) (at : String → ModelDirectory) (token lang : String)
      (app : Application)
      → Memᴰ gone app.ended
      → Memᴰ gone (set_language_found o at token lang app).0.ended
  unfolding set_language_found switch_room
  language-ended none at token lang app a = a
  language-ended (some rs) at token lang app a =
      kept (set_language at lang (rs.transcriber, app.models))
    where
      kept : (r : Managed × Option ModelError) → Memᴰ gone (switch_room r lang token rs app).0.ended
      kept ((tm, mm), some e) = a
      kept ((tm, mm), none) = a

  target-ended :
      (o : Option RoomState) (now : ℕ) (f : Fetch) (token nc : String) (lang : Option String)
      (app : Application)
      → Memᴰ gone app.ended
      → Memᴰ gone (set_target_found o now f token nc lang app).0.ended
  unfolding set_target_found set_target
  target-ended none now f token nc lang app a = a
  target-ended (some rs) now f token nc lang app a = kept (wanted lang)
    where
      kept : (w : Option String) → Memᴰ gone (set_target w now f token nc rs app).0.ended
      kept none = a
      kept (some l) = a

  asked-ended :
      (o : Option RoomState) (now : ℕ) (first second : Fetch) (token : String) (app : Application)
      → Memᴰ gone app.ended
      → Memᴰ gone (translation_languages_found o now first second token app).0.ended
  unfolding translation_languages_found room_languages
  asked-ended none now first second token app a = a
  asked-ended (some rs) now first second token app a = kept (get_languages now first rs.meta)
    where
      kept :
          (r : MetaTranslator × Result Error SupportedTranslationLanguages)
          → Memᴰ gone (room_languages r now second token rs app).0.ended
      kept (meta, ok langs) = a
      kept (meta, err e) = a

-- What may happen to the app.
pub data Call : Type 0 where
  requests : Option HpbSettings → (ℕ → Attempt) → Endpoints → String → String → String → Bool → Call
  leaves : String → Call
  calls_back : String → Call
  switches : (String → ModelDirectory) → String → String → Call
  translates : ℕ → Fetch → String → String → Option String → Call
  asks_languages : ℕ → Fetch → Fetch → String → Call
  shuts_down : Call

module _ (hmac : String → String → String) where
  abbrev pub step : Call → Application → Application
  step (requests fetched attempts ends token nc lang enable) app =
      (transcript_req hmac fetched attempts ends token nc lang enable app).1
  step (leaves token) app = leave_call token app
  step (calls_back token) app = leave_call_cb token app
  step (switches at token lang) app = (set_call_language at token lang app).0
  step (translates now f token nc lang) app = (set_target_language now f token nc lang app).0
  step (asks_languages now first second token) app =
      (room_translation_languages now first second token app).0
  step shuts_down app = shutdown_all app

  module _ (gone : RoomState) where
    leave-ended :
        (o : Option RoomState) (token : String) (app : Application)
        → Memᴰ gone app.ended
        → Memᴰ gone (leave_found o token app).ended
    unfolding leave_found
    leave-ended none token app a = a
    leave-ended (some rs) token app a = a

    pub step-ended :
        (c : Call) (app : Application) → Memᴰ gone app.ended → Memᴰ gone (step c app).ended
    unfolding transcript_req leave_call leave_call_cb set_call_language set_target_language
        shutdown_all room_translation_languages
    step-ended (requests fetched attempts ends token nc lang enable) app a =
        found-ended gone hmac (lookup token app.rooms) fetched attempts ends token nc lang enable
          app a
    step-ended (leaves token) app a = leave-ended (lookup token app.rooms) token app a
    step-ended (calls_back token) app a = clean-ended gone (lookup token app.rooms) token app a
    step-ended (switches at token lang) app a =
        language-ended gone (lookup token app.rooms) at token lang app a
    step-ended (translates now f token nc lang) app a =
        target-ended gone (lookup token app.rooms) now f token nc lang app a
    step-ended (asks_languages now first second token) app a =
        asked-ended gone (lookup token app.rooms) now first second token app a
    step-ended shuts_down app a = end_each-ended gone app.rooms app.ended a

-- A room that is in the map is among the ended ones after the loop, closed and stopped.
pub end_each-stops :
    (gone : RoomState) (token : String) (rooms : GoMap RoomState) (ended : List RoomState)
    → lookup token rooms ≡ some gone
    → Memᴰ (stop_room (close_room gone)) (end_each rooms ended)
unfolding end_each lookup
end_each-stops gone token [] ended e = absurd (ground (arith, e))
end_each-stops gone token ((k, rs) ∷ rooms) ended e = elim (Bool-cases (k == token)) [
  | inl same ↦
      end_each-ended (stop_room (close_room gone)) rooms _ (Memᴰ.head (ground (arith, e, same)))
  | inr other ↦ end_each-stops gone token rooms _ (ground (arith, e, other))
]
