-- ===== src/Vosk/Balance.antt =====
-- The references that a room holds (`TranscriberManager` of internal/vosk/recognizer.go): one for
-- each of its recognizers, beside those of the other rooms.
use go_live_transcription.Prelude.{
  ℕ, ◌+◌, ◌-◌, String, ◌==◌, eq_iff, ◌≡◌, refl, false, Option, none, some, List, [], ◌∷◌, length,
  if◌then◌else◌, arith, Result, ok, err, Bool-cases, inl, inr,
}
use go_live_transcription.GoMap.{GoMap, lookup, has}
use go_live_transcription.GoMap.Laws.{
  Distinct, insert-Distinct, delete-Distinct, length-insert, length-delete,
}
use go_live_transcription.Vosk.Models.{
  ModelManager, ModelDirectory, ModelError, get_model, release_model,
}
use go_live_transcription.Vosk.Recognizer.{Recognizer, new_recognizer, close_recognizer}
use go_live_transcription.Vosk.Manager.{
  TranscriberManager, Managed, get_or_create, remove, close_each, close_all, set_language,
  make_recognizer, find_or_make, drop_recognizer, switch_language,
}
use go_live_transcription.Vosk.References.{
  refs, Sound, Counts, get_model-Counts, release_model-refs,
}

-- The references to the model of a language that a room holds.
abbrev pub held : String → TranscriberManager → ℕ
held l tm = if tm.language == l then length tm.recognizers else 0

-- The count is right when all other rooms hold `others` references.
pub record Balanced (others : ℕ) (l : String) (w : Managed) : Type 0 where
  pub sound : Sound l w.1
  pub counted : refs l w.1 ≡ held l w.0 + others
  pub distinct : Distinct w.0.recognizers

module _ (others : ℕ) (l : String) where
  make-Balanced :
      (r : ModelManager × Result ModelError ℕ) (made : Option ℕ) (sid : String)
      (tm : TranscriberManager) (mm : ModelManager)
      → has sid tm.recognizers ≡ false
      → Balanced others l (tm, mm)
      → Counts tm.language l mm r
      → Balanced others l (make_recognizer r made sid tm).0
  unfolding make_recognizer
  make-Balanced (mn, err e) made sid tm mm a b c = ground (arith, b, c)
  make-Balanced (mn, ok model) none sid tm mm a b c =
      ground (arith, b, c, release_model-refs tm.language l mn c.1)
  make-Balanced (mn, ok model) (some rec) sid tm mm a b c =
      let r = new_recognizer rec model sid tm.language tm.sample_rate in
      ground (
        arith,
        b,
        c,
        length-insert sid r tm.recognizers a,
        insert-Distinct sid r tm.recognizers b.distinct,
      )

  find_or_make-Balanced :
      (o : Option Recognizer) (at : String → ModelDirectory) (made : Option ℕ) (sid : String)
      (tm : TranscriberManager) (mm : ModelManager)
      → lookup sid tm.recognizers ≡ o
      → Balanced others l (tm, mm)
      → Balanced others l (find_or_make o at made sid (tm, mm)).0
  unfolding find_or_make has
  find_or_make-Balanced (some r) at made sid tm mm e b = b
  find_or_make-Balanced none at made sid tm mm e b =
      make-Balanced (get_model at tm.language mm) made sid tm mm (rw e refl) b
        (get_model-Counts at tm.language l mm b.sound)

  pub get_or_create-Balanced :
      (at : String → ModelDirectory) (made : Option ℕ) (sid : String) (w : Managed)
      → Balanced others l w
      → Balanced others l (get_or_create at made sid w).0
  unfolding get_or_create
  get_or_create-Balanced at made sid (tm, mm) b =
      find_or_make-Balanced (lookup sid tm.recognizers) at made sid tm mm refl b

  drop-Balanced :
      (o : Option Recognizer) (sid : String) (tm : TranscriberManager) (mm : ModelManager)
      → lookup sid tm.recognizers ≡ o
      → Balanced others l (tm, mm)
      → Balanced others l (drop_recognizer o sid (tm, mm))
  unfolding drop_recognizer has
  drop-Balanced none sid tm mm e b = b
  drop-Balanced (some r) sid tm mm e b = ground (
    arith,
    b,
    release_model-refs tm.language l mm b.sound,
    length-delete sid tm.recognizers b.distinct (rw e refl),
    delete-Distinct sid tm.recognizers b.distinct,
  )

  pub remove-Balanced :
      (sid : String) (w : Managed) → Balanced others l w → Balanced others l (remove sid w)
  unfolding remove
  remove-Balanced sid (tm, mm) b = drop-Balanced (lookup sid tm.recognizers) sid tm mm refl b

  close_each-refs :
      (k : String) (rs : GoMap Recognizer) (closed : List Recognizer) (mm : ModelManager)
      → Sound l mm
      → (refs l (close_each k rs (closed, mm)).1
          ≡ (if k == l then refs l mm - length rs else refs l mm))
        × Sound l (close_each k rs (closed, mm)).1
  unfolding close_each
  close_each-refs k [] closed mm s = ground (arith, s)
  close_each-refs k ((sid, r) ∷ rs) closed mm s =
      let released = release_model-refs k l mm s in
      ground (
        arith,
        released,
        close_each-refs k rs (close_recognizer r ∷ closed) (release_model k mm) released.1,
      )

  pub close_all-Balanced : (w : Managed) → Balanced others l w → Balanced others l (close_all w)
  unfolding close_all
  close_all-Balanced (tm, mm) b =
      ground (arith, b, close_each-refs tm.language tm.recognizers tm.closed mm b.sound)

  switch-Balanced :
      (r : ModelManager × Result ModelError ℕ) (lang : String) (tm : TranscriberManager)
      (mm : ModelManager)
      → (lang == tm.language) ≡ false
      → Balanced others l (tm, mm)
      → Counts lang l mm r
      → Balanced others l (switch_language r lang tm).0
  unfolding switch_language close_all
  switch-Balanced (mn, err e) lang tm mm a b c = ground (arith, b, c)
  switch-Balanced (mn, ok model) lang tm mm a b c =
      let closed = close_each-refs tm.language tm.recognizers tm.closed mn c.1 in
      ground (
        arith,
        a,
        b,
        c,
        closed,
        eq_iff lang l,
        eq_iff tm.language l,
        eq_iff lang tm.language,
        release_model-refs lang l (close_each tm.language tm.recognizers (tm.closed, mn)).1
            closed.1,
      )

  pub set_language-Balanced :
      (at : String → ModelDirectory) (lang : String) (w : Managed)
      → Balanced others l w
      → Balanced others l (set_language at lang w).0
  unfolding set_language
  set_language-Balanced at lang (tm, mm) b = elim (Bool-cases (lang == tm.language)) [
    | inl e ↦ ground (arith, b, e)
    | inr e ↦
        rw (e, set_language)
          (switch-Balanced (get_model at lang mm) lang tm mm e b
            (get_model-Counts at lang l mm b.sound))
  ]
