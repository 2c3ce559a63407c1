-- ===== src/Translation/Flow/Delivered.antt =====
-- What comes to the translated sender, whatever happens in whatever order (internal/translation).
use go_live_transcription.Prelude.{
  ◌≤◌, String, ◌≡◌, refl, Bool, true, ◌&&◌, Option, none, some, List, [], ◌∷◌, length,
  length-append, Result, arith, Bool-cases, inl, inr,
}
use go_live_transcription.GoMap.{lookup}
use go_live_transcription.Signaling.Client.{Transcript}
use go_live_transcription.Translation.Ocp.{Error}
use go_live_transcription.Translation.Meta.{
  TranslateInputOutput, MetaTranslator, new_meta_translator, add_translator, remove_translator,
  set_room_lang_id, shutdown, stop, fan_out,
}
use go_live_transcription.Sending.Transcript.{forward, translation_input}
use go_live_transcription.Translation.Flow.{
  Flow, FlowEvent, says, fans_out, takes, shuts_down, finishes, adds, removes, sets_language,
  fan_first, job_at, finish_job, take_first, flow_step, flow_run,
}
use go_live_transcription.Translation.Flow.Asked.{
  all_suit, all_suit-append, AllServe, switched-AllServe, forgot-AllServe, language-AllServe,
}
use go_live_transcription.Translation.Flow.Segments.{
  fan_out-suits, FoundSuits, job_at-FoundSuits, handled-suits,
}

-- The transcripts are of speakers of one kind, and each request of a session is for a language that it
-- may have.
abbrev pub allowed : (String → Bool) → (String → String → Bool) → FlowEvent → Bool
allowed spoke asked (says forwards t) = spoke t.speaker_session_id
allowed spoke asked (adds now f lang nc) = asked nc lang
allowed spoke asked fans_out = true
allowed spoke asked takes = true
allowed spoke asked shuts_down = true
allowed spoke asked (finishes n r) = true
allowed spoke asked (removes nc) = true
allowed spoke asked (sets_language lang) = true

abbrev pub all_allowed : (String → Bool) → (String → String → Bool) → List FlowEvent → Bool
all_allowed spoke asked [] = true
all_allowed spoke asked (e ∷ es) = allowed spoke asked e && all_allowed spoke asked es

module _ (spoke : String → Bool) (asked : String → String → Bool) where
  pub record Inv (w : Flow) : Type 0 where
    pub serves : AllServe spoke asked w.meta.translators
    pub coming : all_suit spoke asked w.translate_in ≡ true
    pub under_way : all_suit spoke asked w.jobs ≡ true
    pub going : all_suit spoke asked w.translate_out ≡ true
    pub gone : all_suit spoke asked w.taken ≡ true
    pub room_in : length w.translate_in ≤ 100
    pub room_out : length w.translate_out ≤ 100

  meta-Inv :
      (m : MetaTranslator) (w : Flow)
      → AllServe spoke asked m.translators
      → Inv w
      → Inv (record w { meta = m })
  meta-Inv m w a v = record {
    serves = a;
    coming = v.coming;
    under_way = v.under_way;
    going = v.going;
    gone = v.gone;
    room_in = v.room_in;
    room_out = v.room_out;
  }

  said-Inv :
      (t : Transcript) (w : Flow)
      → spoke t.speaker_session_id ≡ true
      → Inv w
      → Inv (record w { translate_in = forward 100 t w.translate_in })
  unfolding forward
  said-Inv t w h v =
      let new = translation_input t in
      let counted = length-append w.translate_in (new ∷ []) in
      let joined = all_suit-append spoke asked w.translate_in (new ∷ []) in
      record {
        serves = v.serves;
        coming = ground (arith, h, v.coming, joined);
        under_way = v.under_way;
        going = v.going;
        gone = v.gone;
        room_in = ground (arith, v.room_in, counted);
        room_out = v.room_out;
      }

  fan-Inv :
      (segs : List TranslateInputOutput) (w : Flow)
      → all_suit spoke asked segs ≡ true
      → length segs ≤ 100
      → Inv w
      → Inv (fan_first segs w)
  unfolding fan_first
  fan-Inv [] w h n v = v
  fan-Inv (seg ∷ rest) w h n v =
      let jobs = fan_out seg w.meta.translators in
      record {
        serves = v.serves;
        coming = ground (arith, h);
        under_way = ground (
          arith,
          v.under_way,
          all_suit-append spoke asked w.jobs jobs,
          fan_out-suits spoke asked seg w.meta.translators (ground (arith, h)) v.serves,
        );
        going = v.going;
        gone = v.gone;
        room_in = omega (arith, n);
        room_out = v.room_out;
      }

  take-Inv :
      (segs : List TranslateInputOutput) (w : Flow)
      → all_suit spoke asked segs ≡ true
      → length segs ≤ 100
      → Inv w
      → Inv (take_first segs w)
  unfolding take_first
  take-Inv [] w h n v = v
  take-Inv (seg ∷ rest) w h n v = record {
    serves = v.serves;
    coming = v.coming;
    under_way = v.under_way;
    going = ground (arith, h);
    gone = ground (arith, h, v.gone, all_suit-append spoke asked w.taken (seg ∷ []));
    room_in = v.room_in;
    room_out = omega (arith, n);
  }

  finish-Inv :
      (o : Option (TranslateInputOutput × List TranslateInputOutput)) (result : Result Error String)
      (w : Flow)
      → FoundSuits spoke asked o
      → Inv w
      → Inv (finish_job o result w)
  unfolding finish_job
  finish-Inv none result w f v = v
  finish-Inv (some (seg, jobs)) result w f v =
      let handled = handled-suits spoke asked result seg w.translate_out f.0 v.going v.room_out in
      record {
        serves = v.serves;
        coming = v.coming;
        under_way = f.1;
        going = handled.0;
        gone = v.gone;
        room_in = v.room_in;
        room_out = handled.1;
      }

  step-Inv : (e : FlowEvent) (w : Flow) → allowed spoke asked e ≡ true → Inv w → Inv (flow_step e w)
  unfolding flow_step add_translator remove_translator shutdown stop
  step-Inv (says forwards t) w h v = elim (Bool-cases (t.final && forwards)) [
    | inl on ↦ rw on (said-Inv t w h v)
    | inr off ↦ rw off v
  ]
  step-Inv fans_out w h v = elim (Bool-cases w.meta.running) [
    | inl on ↦ simp on (fan-Inv w.translate_in w v.coming v.room_in v)
    | inr off ↦ simp off v
  ]
  step-Inv takes w h v = take-Inv w.translate_out w v.going v.room_out v
  step-Inv shuts_down w h v = meta-Inv (shutdown w.meta) w v.serves v
  step-Inv (finishes n result) w h v =
      finish-Inv (job_at n w.jobs) result w (job_at-FoundSuits spoke asked n w.jobs v.under_way) v
  step-Inv (adds now f lang nc) w h v =
      meta-Inv (add_translator now f lang nc w.meta).0 w
        (switched-AllServe spoke asked (lookup nc w.meta.sid_lang_map) now f lang nc w.meta h
          v.serves)
        v
  step-Inv (removes nc) w h v =
      meta-Inv (remove_translator nc w.meta) w
        (forgot-AllServe spoke asked (lookup nc w.meta.sid_lang_map) nc w.meta v.serves) v
  step-Inv (sets_language lang) w h v =
      meta-Inv (set_room_lang_id lang w.meta) w (language-AllServe spoke asked lang w.meta v.serves)
        v

  run-Inv :
      (es : List FlowEvent) (w : Flow)
      → all_allowed spoke asked es ≡ true
      → Inv w
      → Inv (flow_run es w)
  unfolding flow_run
  run-Inv [] w h v = v
  run-Inv (e ∷ es) w h v =
      run-Inv es (flow_step e w) (ground (arith, h)) (step-Inv e w (ground (arith, h)) v)

  -- A call starts without targets and with empty channels. Whatever is said, whichever languages
  -- sessions ask for, give up or are refused, and in whatever order the jobs end: if the transcripts
  -- are of speakers of one kind, and each session asks only for languages of its own, then every
  -- segment that the translated sender takes is of such a speaker and goes only to sessions whose
  -- own the language of the segment is, and neither channel holds more than 100 segments.
  pub flow_run-suits :
      (es : List FlowEvent) (room lang : String)
      → all_allowed spoke asked es ≡ true
      → let end = flow_run es (record {
        meta = new_meta_translator room lang;
        translate_in = [];
        jobs = [];
        translate_out = [];
        taken = [];
      }) in
        (all_suit spoke asked end.taken ≡ true)
        × (length end.translate_in ≤ 100)
        × (length end.translate_out ≤ 100)
  unfolding new_meta_translator
  flow_run-suits es room lang h =
      let first : Flow = record {
        meta = new_meta_translator room lang;
        translate_in = [];
        jobs = [];
        translate_out = [];
        taken = [];
      } in
      let v : Inv first = record {
        serves = tt;
        coming = refl;
        under_way = refl;
        going = refl;
        gone = refl;
        room_in = omega arith;
        room_out = omega arith;
      } in
      let end = run-Inv es first h v in (end.gone, end.room_in, end.room_out)
