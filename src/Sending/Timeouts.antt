-- ===== src/Sending/Timeouts.antt =====
-- The timeouts of the senders stay bounded and come back (internal/transcript/sender.go,
-- internal/translation/sender.go).
use go_live_transcription.Prelude.{
  ℕ, zero, suc, ◌≤◌, ◌≡◌, refl, Bool, true, List, [], ◌∷◌, arith, if◌then◌else◌, nat_eq, ◌||◌,
}
use go_live_transcription.Constants.{
  send_timeout, max_transcript_send_timeout, max_translation_send_timeout,
}
use go_live_transcription.Sending.Timing.{
  Timing, start, sent_in_time, translated_in_time, timed_out, increased,
}

-- The source writes the way back in two ways, which do the same from every state.
pub sent_in_time-translated : (t : Timing) → sent_in_time t ≡ translated_in_time t
unfolding sent_in_time translated_in_time
sent_in_time-translated t = ground arith

-- What becomes of the timing when the sendings end as listed, in time or not.
abbrev pub run : ℕ → List Bool → Timing → Timing
run max_timeout [] t = t
run max_timeout (in_time ∷ rest) t =
    run max_timeout rest (if in_time then sent_in_time t else timed_out max_timeout t)

-- The `n`-th timeout above the first.
abbrev pub timeout_at : ℕ → ℕ
timeout_at zero = send_timeout
timeout_at (suc n) = increased (timeout_at n)

abbrev pub is_timeout : ℕ → ℕ → Bool
is_timeout zero x = nat_eq x send_timeout
is_timeout (suc n) x = nat_eq x (timeout_at (suc n)) || is_timeout n x

-- The timeout is one of the first `n` increases, and the count has not reached five.
abbrev pub Within : ℕ → Timing → Type 0
Within n t = (is_timeout n t.timeout ≡ true) × (t.timeout_count ≤ 4)

transcript_step :
    (in_time : Bool) (t : Timing)
    → Within 3 t
    → Within 3 (if in_time then sent_in_time t else timed_out max_transcript_send_timeout t)
unfolding sent_in_time timed_out
transcript_step in_time t w = ground (arith, w)

translation_step :
    (in_time : Bool) (t : Timing)
    → Within 5 t
    → Within 5 (if in_time then sent_in_time t else timed_out max_translation_send_timeout t)
unfolding sent_in_time timed_out
translation_step in_time t w = ground (arith, w)

transcript_run :
    (ends : List Bool) (t : Timing) → Within 3 t → Within 3 (run max_transcript_send_timeout ends t)
transcript_run [] t w = w
transcript_run (e ∷ ends) t w = transcript_run ends _ (transcript_step e t w)

translation_run :
    (ends : List Bool) (t : Timing)
    → Within 5 t
    → Within 5 (run max_translation_send_timeout ends t)
translation_run [] t w = w
translation_run (e ∷ ends) t w = translation_run ends _ (translation_step e t w)

within_3 : (x : ℕ) → is_timeout 3 x ≡ true → (send_timeout ≤ x) × (x ≤ 33_750_000_000)
within_3 x h = ground (arith, h)

within_5 : (x : ℕ) → is_timeout 5 x ≡ true → (send_timeout ≤ x) × (x ≤ 75_937_500_000)
within_5 x h = ground (arith, h)

-- However the sendings end, the timeout of the sender of transcripts stays between 10 and 33.75
-- seconds and that of the sender of translations between 10 and 75.9375 seconds.
pub run-bounds :
    (ends : List Bool)
    → let t = run max_transcript_send_timeout ends start in
      let u = run max_translation_send_timeout ends start in
      ((send_timeout ≤ t.timeout) × (t.timeout ≤ 33_750_000_000))
      × ((send_timeout ≤ u.timeout) × (u.timeout ≤ 75_937_500_000))
run-bounds ends = (
  within_3 _ (transcript_run ends start (refl, omega arith)).0,
  within_5 _ (translation_run ends start (refl, omega arith)).0,
)

abbrev pub all_in_time : ℕ → List Bool
all_in_time zero = []
all_in_time (suc n) = true ∷ all_in_time n

abbrev pub run_in_time : ℕ → Timing → Timing
run_in_time zero t = t
run_in_time (suc n) t = run_in_time n (sent_in_time t)

-- A send in time lowers the count.
counts_down :
    (c : ℕ) (t : Timing)
    → Within 5 t
    → t.timeout_count ≤ suc c
    → Within 5 (sent_in_time t) × ((sent_in_time t).timeout_count ≤ c)
unfolding sent_in_time
counts_down c t w h = ground (arith, w)

counts_out :
    (c : ℕ) (t : Timing)
    → Within 5 t
    → t.timeout_count ≤ c
    → Within 5 (run_in_time c t) × ((run_in_time c t).timeout_count ≤ 0)
counts_out zero t w h = (w, h)
counts_out (suc c) t w h = let (v, k) = counts_down c t w h in counts_out c (sent_in_time t) v k

-- With no count left, a send in time takes back one increase.
takes_back : (t : Timing) → Within 5 t → t.timeout_count ≤ 0 → run_in_time 5 t ≡ start
unfolding sent_in_time
takes_back t w h = ground (arith, w)

recovers-Within :
    (max_timeout : ℕ) (t : Timing) → Within 5 t → run max_timeout (all_in_time 9) t ≡ start
recovers-Within max_timeout t w =
    let (v, k) = counts_out 4 t w w.1 in takes_back (run_in_time 4 t) v k

Within-more : (t : Timing) → Within 3 t → Within 5 t
Within-more t w = ground (arith, w)

-- However the sendings have ended so far, nine that end in time bring the timing of either sender
-- back to where it started.
pub run-recovers :
    (ends : List Bool)
    → (run max_transcript_send_timeout (all_in_time 9) (run max_transcript_send_timeout ends start)
        ≡ start)
      × (run max_translation_send_timeout
            (all_in_time 9)
            (run max_translation_send_timeout ends start)
          ≡ start)
run-recovers ends = (
  recovers-Within max_transcript_send_timeout _ (
      Within-more (run max_transcript_send_timeout ends start)
        (transcript_run ends start (refl, omega arith))),
  recovers-Within max_translation_send_timeout _ (translation_run ends start (refl, omega arith)),
)
