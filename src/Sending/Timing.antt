-- ===== src/Sending/Timing.antt =====
-- The timeouts of the two senders: `Run` of internal/transcript/sender.go and of
-- internal/translation/sender.go. The factor of 1.5 is exact in floating point on the timeouts that
-- occur, which are integers below 2^53, so it is written on integers.
use go_live_transcription.Prelude.{ℕ, ◌+◌, ◌-◌, ◌*◌, ◌/◌, ◌&&◌, if◌then◌else◌, ltb, leb, nat_eq}
use go_live_transcription.Constants.{send_timeout}

-- The local variables of `Run`.
pub record Timing : Type 0 where
  pub timeout : ℕ
  pub timeout_count : ℕ

abbrev pub start : Timing
start = record { timeout = send_timeout; timeout_count = 0 }

-- `time.Duration(float64(timeout) * constants.TimeoutIncreaseFactor)` and its inverse.
abbrev pub increased : ℕ → ℕ
increased timeout = timeout * 3 / 2

abbrev pub decreased : ℕ → ℕ
decreased timeout = timeout * 2 / 3

abbrev pub count_down : Timing → Timing
count_down t = if ltb 0 t.timeout_count then record t { timeout_count = t.timeout_count - 1 } else t

-- The case `<-done` of the transcript sender, with `max`.
unfoldable pub sent_in_time : Timing → Timing
sent_in_time t =
    let u = count_down t in
    if nat_eq u.timeout_count 0 && ltb send_timeout u.timeout
    then record u {
      timeout =
          if ltb (decreased u.timeout) send_timeout then send_timeout else decreased u.timeout;
    }
    else u

-- The case `<-done` of the sender of translations, with a test in place of `max`.
unfoldable pub translated_in_time : Timing → Timing
translated_in_time t =
    let u = count_down t in
    if nat_eq u.timeout_count 0 && ltb send_timeout u.timeout
    then (let new_timeout = decreased u.timeout in
        if ltb send_timeout new_timeout
        then record u { timeout = new_timeout }
        else record u { timeout = send_timeout })
    else u

-- The case `<-time.After(timeout)`, with the largest timeout that is still increased.
unfoldable pub timed_out : ℕ → Timing → Timing
timed_out max_timeout t =
    if leb t.timeout max_timeout
    then (let count = t.timeout_count + 1 in
        if leb 5 count
        then record { timeout = increased t.timeout; timeout_count = 0 }
        else record t { timeout_count = count })
    else t
