-- ===== src/Vosk/Worker/Rounds.antt =====
-- What the audio worker's recognizers and its channel of transcripts keep (internal/vosk/worker.go,
-- internal/vosk/recognizer.go).
use go_live_transcription.Prelude.{
  ℕ, ◌≤◌, ◌<◌, String, ◌==◌, eq_iff, ◌≡◌, refl, ap, ◌∙◌, subst, Bool, true, false, ◌&&◌, Option,
  none, some, List, [], ◌∷◌, ◌++◌, length, arith, Result, ok, err, Bool-cases, inl, inr,
}
use go_live_transcription.GoMap.{GoMap, lookup, insert}
use go_live_transcription.GoMap.Laws.{lookup-insert}
use go_live_transcription.Vosk.Audio.{downsample, int16_to_bytes}
use go_live_transcription.Prelude.Int.{ℤ}
use go_live_transcription.Signaling.Client.{Transcript, PcmAudio}
use go_live_transcription.Vosk.Models.{
  ModelManager, ModelDirectory, ModelError, get_model, release_model,
}
use go_live_transcription.Vosk.Recognizer.{
  Recognizer, new_recognizer, VoskResult, Heard, Hearing, emit_message, emit_transcript, feed_live,
  feed_audio, feed_if, reset_recognizer, transcript_of, message_of, count_chunk,
}
use go_live_transcription.Vosk.Manager.{
  TranscriberManager, Managed, CreateError, get_or_create, find_or_make, make_recognizer,
  set_language, switch_language, close_all,
}
use go_live_transcription.Vosk.Chunks.{Bounded, all_say, feed_if-Bounded}
use go_live_transcription.Vosk.Worker.{Worker, Vosk, feed_into, round_of}

-- A transcript of one of the speakers, in one of the languages.
abbrev pub all_from : (String → Bool) → (String → Bool) → List Transcript → Bool
all_from spoke used [] = true
all_from spoke used (t ∷ ts) =
    spoke t.speaker_session_id && used t.lang_id && all_from spoke used ts

module _ (spoke used : String → Bool) where
  all_from-append :
      (ts : List Transcript) (t : Transcript)
      → all_from spoke used (ts ++ t ∷ [])
        ≡ (all_from spoke used ts && spoke t.speaker_session_id && used t.lang_id)
  all_from-append [] t = ground arith
  all_from-append (u ∷ ts) t = ground (arith, all_from-append ts t)

  -- A recognizer is its speaker's, and hears a language that was used.
  abbrev Own : String → Recognizer → Type 0
  Own sid r = (r.session_id ≡ sid) × (used r.language ≡ true) × (r.chunks_since_final < 500)

  abbrev OwnIn : String → Option Recognizer → Type 0
  OwnIn sid none = Unit {0}
  OwnIn sid (some r) = Own sid r

  -- What a recognizer that is fed keeps.
  abbrev Hears : Hearing → Hearing → Type 0
  Hears h e =
      (e.recognizer.session_id ≡ h.recognizer.session_id)
      × (e.recognizer.language ≡ h.recognizer.language)
      × (all_from spoke used e.transcript_ch ≡ true)

  emit-Hears :
      (capacity : ℕ) (r : Option VoskResult) (is_final : Bool) (h : Hearing)
      → spoke h.recognizer.session_id ≡ true
      → used h.recognizer.language ≡ true
      → all_from spoke used h.transcript_ch ≡ true
      → Hears h (emit_transcript capacity r is_final h)
  unfolding emit_transcript emit_message
  emit-Hears capacity none is_final h p q a = (refl, refl, a)
  emit-Hears capacity (some r) is_final h p q a =
      let t = transcript_of is_final (message_of is_final r) h.recognizer in
      ground (arith, p, q, a, all_from-append h.transcript_ch t)

  feed_live-Hears :
      (capacity : ℕ) (a : Heard) (h : Hearing)
      → spoke h.recognizer.session_id ≡ true
      → used h.recognizer.language ≡ true
      → all_from spoke used h.transcript_ch ≡ true
      → Hears h (feed_live capacity a h)
  unfolding feed_live reset_recognizer
  feed_live-Hears capacity a h p q c =
      let fed = count_chunk h in
      ground (
        arith,
        emit-Hears capacity a.result true fed p q c,
        emit-Hears capacity a.final_result true fed p q c,
        emit-Hears capacity a.partial_result false fed p q c,
      )

  feed_if-Hears :
      (o : Option ℕ) (capacity : ℕ) (a : Heard) (h : Hearing)
      → spoke h.recognizer.session_id ≡ true
      → used h.recognizer.language ≡ true
      → all_from spoke used h.transcript_ch ≡ true
      → Hears h (feed_if o capacity a h)
  feed_if-Hears none capacity a h p q c = (refl, refl, c)
  feed_if-Hears (some rec) capacity a h p q c = feed_live-Hears capacity a h p q c

  -- The invariant of a worker.
  pub record Fine (capacity : ℕ) (w : Worker) : Type 0 where
    pub own : (sid : String) → OwnIn sid (lookup sid w.managed.0.recognizers)
    pub current : used w.managed.0.language ≡ true
    pub room : length w.transcript_ch ≤ capacity
    pub meaning : all_say w.transcript_ch ≡ true
    pub from : all_from spoke used w.transcript_ch ≡ true

  OwnIn-insert :
      (sid other : String) (r : Recognizer) (rs : GoMap Recognizer)
      → Own sid r
      → OwnIn other (lookup other rs)
      → OwnIn other (lookup other (insert sid r rs))
  OwnIn-insert sid other r rs o h =
      rw (lookup-insert sid other r rs) (elim (Bool-cases (sid == other)) [
        | inl same ↦ rw same (o.0 ∙ (eq_iff sid other).0 same, o.1, o.2)
        | inr apart ↦ rw apart h
      ])

  other_models :
      (capacity : ℕ) (tm : TranscriberManager) (mm mn : ModelManager) (ch : List Transcript)
      → Fine capacity (record { managed = (tm, mm); transcript_ch = ch })
      → Fine capacity (record { managed = (tm, mn); transcript_ch = ch })
  other_models capacity tm mm mn ch f = record {
    own = f.own;
    current = f.current;
    room = f.room;
    meaning = f.meaning;
    from = f.from;
  }

  fed-Fine :
      (capacity : ℕ) (v : Vosk) (audio : PcmAudio) (tm : TranscriberManager) (mm : ModelManager)
      (r : Recognizer) (ch : List Transcript)
      → spoke audio.session_id ≡ true
      → Own audio.session_id r
      → Fine capacity (record { managed = (tm, mm); transcript_ch = ch })
      → Fine capacity (feed_into ((tm, mm), ok r) capacity v audio ch)
  unfolding feed_into feed_audio
  fed-Fine capacity v audio tm mm r ch p o f =
      let a = v.heard (int16_to_bytes (downsample audio.samples)) in
      let h : Hearing = record { recognizer = r; transcript_ch = ch } in
      let fed = feed_if r.rec capacity a h in
      let bounded : Bounded capacity h = record {
        chunks = o.2;
        room = f.room;
        meaning = f.meaning;
      } in
      let still = feed_if-Bounded r.rec capacity a h bounded in
      let hears = feed_if-Hears r.rec capacity a h (ground (arith, p, o)) o.1 f.from in
      let kept : Own audio.session_id fed.recognizer =
        (hears.0 ∙ o.0, ap used hears.1 ∙ o.1, still.chunks) in
      record {
        own =
            λ sid. OwnIn-insert audio.session_id sid fed.recognizer tm.recognizers kept (f.own sid);
        current = f.current;
        room = still.room;
        meaning = still.meaning;
        from = hears.2;
      }

  -- What `GetOrCreate` gives.
  Created : ℕ → String → List Transcript → Managed × Result CreateError Recognizer → Type 0
  Created capacity sid ch (w, ok r) =
      Own sid r × Fine capacity (record { managed = w; transcript_ch = ch })
  Created capacity sid ch (w, err e) = Fine capacity (record { managed = w; transcript_ch = ch })

  make-Created :
      (x : ModelManager × Result ModelError ℕ) (capacity : ℕ) (made : Option ℕ) (sid : String)
      (tm : TranscriberManager) (mm : ModelManager) (ch : List Transcript)
      → Fine capacity (record { managed = (tm, mm); transcript_ch = ch })
      → Created capacity sid ch (make_recognizer x made sid tm)
  unfolding make_recognizer Created new_recognizer
  make-Created (mn, err e) capacity made sid tm mm ch f = other_models capacity tm mm mn ch f
  make-Created (mn, ok model) capacity none sid tm mm ch f =
      other_models capacity tm mm (release_model tm.language mn) ch f
  make-Created (mn, ok model) capacity (some rec) sid tm mm ch f =
      let r = new_recognizer rec model sid tm.language tm.sample_rate in
      let o : Own sid r = (refl, f.current, omega arith) in
      (
        o,
        record {
          own = λ other. OwnIn-insert sid other r tm.recognizers o (f.own other);
          current = f.current;
          room = f.room;
          meaning = f.meaning;
          from = f.from;
        },
      )

  find-Created :
      (x : Option Recognizer) (capacity : ℕ) (v : Vosk) (sid : String) (tm : TranscriberManager)
      (mm : ModelManager) (ch : List Transcript)
      → lookup sid tm.recognizers ≡ x
      → Fine capacity (record { managed = (tm, mm); transcript_ch = ch })
      → Created capacity sid ch (find_or_make x v.at v.made sid (tm, mm))
  unfolding find_or_make Created
  find-Created none capacity v sid tm mm ch e f =
      make-Created (get_model v.at tm.language mm) capacity v.made sid tm mm ch f
  find-Created (some r) capacity v sid tm mm ch e f = (subst (OwnIn sid) e (f.own sid), f)

  feed-Fine :
      (x : Managed × Result CreateError Recognizer) (capacity : ℕ) (v : Vosk) (audio : PcmAudio)
      (ch : List Transcript)
      → spoke audio.session_id ≡ true
      → Created capacity audio.session_id ch x
      → Fine capacity (feed_into x capacity v audio ch)
  unfolding Created feed_into
  feed-Fine (w, err e) capacity v audio ch p f = f
  feed-Fine ((tm, mm), ok r) capacity v audio ch p c =
      fed-Fine capacity v audio tm mm r ch p c.0 c.1

  pub round-Fine :
      (samples : List ℤ) (capacity : ℕ) (v : Vosk) (audio : PcmAudio) (tm : TranscriberManager)
      (mm : ModelManager) (ch : List Transcript)
      → spoke audio.session_id ≡ true
      → Fine capacity (record { managed = (tm, mm); transcript_ch = ch })
      → Fine capacity
          (round_of samples capacity v audio (record { managed = (tm, mm); transcript_ch = ch }))
  unfolding round_of get_or_create
  round-Fine [] capacity v audio tm mm ch p f = f
  round-Fine (s ∷ samples) capacity v audio tm mm ch p f =
      feed-Fine
        (find_or_make (lookup audio.session_id tm.recognizers) v.at v.made audio.session_id
          (tm, mm))
        capacity v audio ch p
        (find-Created (lookup audio.session_id tm.recognizers) capacity v audio.session_id tm mm ch
          refl f)

  language-Fine :
      (x : ModelManager × Result ModelError ℕ) (capacity : ℕ) (lang : String)
      (tm : TranscriberManager) (mm : ModelManager) (ch : List Transcript)
      → used lang ≡ true
      → Fine capacity (record { managed = (tm, mm); transcript_ch = ch })
      → Fine capacity (record { managed = (switch_language x lang tm).0; transcript_ch = ch })
  unfolding switch_language close_all lookup
  language-Fine (mn, err e) capacity lang tm mm ch q f = other_models capacity tm mm mn ch f
  language-Fine (mn, ok model) capacity lang tm mm ch q f = record {
    own = λ sid. tt;
    current = q;
    room = f.room;
    meaning = f.meaning;
    from = f.from;
  }

  pub switched-Fine :
      (at : String → ModelDirectory) (capacity : ℕ) (lang : String) (tm : TranscriberManager)
      (mm : ModelManager) (ch : List Transcript)
      → used lang ≡ true
      → Fine capacity (record { managed = (tm, mm); transcript_ch = ch })
      → Fine capacity (record { managed = (set_language at lang (tm, mm)).0; transcript_ch = ch })
  unfolding set_language
  switched-Fine at capacity lang tm mm ch q f = elim (Bool-cases (lang == tm.language)) [
    | inl same ↦ rw same f
    | inr other ↦ rw other (language-Fine (get_model at lang mm) capacity lang tm mm ch q f)
  ]
