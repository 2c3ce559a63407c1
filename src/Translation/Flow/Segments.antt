-- ===== src/Translation/Flow/Segments.antt =====
-- The segments on the way of a translation: who spoke, and whom they go to (internal/translation).
use go_live_transcription.Prelude.{
  ℕ, zero, suc, ◌≤◌, String, ◌≡◌, refl, sym, subst, Bool, true, Option, none, some, List, [], ◌∷◌,
  length, length-append, Result, ok, err, arith,
}
use go_live_transcription.GoMap.{GoMap}
use go_live_transcription.Translation.Ocp.{OcpTranslator, Error, session_ids}
use go_live_transcription.Translation.Meta.{TranslateInputOutput, fan_out, handle_translation}
use go_live_transcription.Translation.Flow.{job_at}
use go_live_transcription.Translation.Flow.Asked.{
  all_of, all_of-copy, suits, all_suit, all_suit-append, Serves, AllServe,
}

module _ (spoke : String → Bool) (asked : String → String → Bool) where
  job-suits :
      (seg : TranslateInputOutput) (lang : String) (t : OcpTranslator)
      → spoke seg.speaker_session_id ≡ true
      → Serves spoke asked lang t
      → suits spoke asked (record seg {
        target_language = t.target_language;
        target_nc_session_ids = session_ids t;
      })
        ≡ true
  unfolding session_ids
  job-suits seg lang t h s =
      let own : all_of (λ nc. asked nc t.target_language) t.nc_session_ids ≡ true =
        subst (λ l. all_of (λ nc. asked nc l) t.nc_session_ids ≡ true) (sym s.0) s.1 in
      ground (arith, h, all_of-copy (λ nc. asked nc t.target_language) [] t.nc_session_ids refl own)

  pub fan_out-suits :
      (seg : TranslateInputOutput) (ts : GoMap OcpTranslator)
      → spoke seg.speaker_session_id ≡ true
      → AllServe spoke asked ts
      → all_suit spoke asked (fan_out seg ts) ≡ true
  unfolding fan_out
  fan_out-suits seg [] h a = refl
  fan_out-suits seg ((lang, t) ∷ ts) h a =
      ground (arith, job-suits seg lang t h a.0, fan_out-suits seg ts h a.1)

  -- A job that is found, and the others.
  abbrev pub FoundSuits : Option (TranslateInputOutput × List TranslateInputOutput) → Type 0
  FoundSuits none = Unit {0}
  FoundSuits (some (seg, jobs)) =
      (suits spoke asked seg ≡ true) × (all_suit spoke asked jobs ≡ true)

  behind-FoundSuits :
      (o : Option (TranslateInputOutput × List TranslateInputOutput)) (seg : TranslateInputOutput)
      → suits spoke asked seg ≡ true
      → FoundSuits o
      → FoundSuits (elim o [ none ↦ none | some found ↦ some (found.0, seg ∷ found.1) ])
  behind-FoundSuits none seg h f = tt
  behind-FoundSuits (some (first, jobs)) seg h f = (f.0, ground (arith, h, f))

  pub job_at-FoundSuits :
      (n : ℕ) (jobs : List TranslateInputOutput)
      → all_suit spoke asked jobs ≡ true
      → FoundSuits (job_at n jobs)
  unfolding job_at
  job_at-FoundSuits n [] a = tt
  job_at-FoundSuits zero (seg ∷ jobs) a = ground (arith, a)
  job_at-FoundSuits (suc n) (seg ∷ jobs) a =
      behind-FoundSuits (job_at n jobs) seg (ground (arith, a))
        (job_at-FoundSuits n jobs (ground (arith, a)))

  pub handled-suits :
      (result : Result Error String) (seg : TranslateInputOutput) (out : List TranslateInputOutput)
      → suits spoke asked seg ≡ true
      → all_suit spoke asked out ≡ true
      → length out ≤ 100
      → (all_suit spoke asked (handle_translation 100 result seg out) ≡ true)
        × (length (handle_translation 100 result seg out) ≤ 100)
  unfolding handle_translation
  handled-suits (err e) seg out h a n = (a, n)
  handled-suits (ok translated) seg out h a n =
      let new : TranslateInputOutput = record seg { message = translated } in
      ground
        (arith, h, a, n, all_suit-append spoke asked out (new ∷ []), length-append out (new ∷ []))
