-- ===== src/Translation/Polling.antt =====
-- How long a translation waits and what it answers (`Translate` and `pollTask` of
-- internal/translation/ocp.go).
use go_live_transcription.Prelude.{
  ℕ, zero, suc, ◌+◌, ◌-◌, ◌*◌, ◌^◌, ◌≤◌, ◌<◌, ◌≡◌, refl, Bool, true, false, ◌&&◌, none, some,
  Result, err, if◌then◌else◌, ltb, nat_eq, arith, ◌⊎◌, inl, inr, Option-cases, Bool-cases,
  nat_eq_iff, String,
}
use go_live_transcription.Constants.{second}
use go_live_transcription.Translation.Ocp.{Error, translate, OcpTranslator}
use go_live_transcription.Translation.Task.{
  TaskAnswer, task_unreachable, task_malformed, answered, Outcome, Schedule, TaskResponse, verdict,
  poll_delay, poll_penalty, sched_body, poll_round, poll_loop, poll_task, schedule_round,
  schedule_loop, translate_message,
}

-- The delays that the code gives, by the number of the poll.
abbrev pub delay_table : ℕ → ℕ
delay_table i =
    if ltb i 3
    then 2 ^ i * second
    else (if ltb i 63 then 5 * second else (if ltb i 180 then 0 else 10 * second))

-- A test holds at the `n` numbers from `i` on.
abbrev all_from : ℕ → ℕ → (ℕ → Bool) → Bool
all_from zero i p = true
all_from (suc n) i p = p i && all_from n (suc i) p

nat_cases : (i k : ℕ) → (nat_eq i k ≡ true) ⊎ (nat_eq i k ≡ false)
nat_cases i k = Bool-cases (nat_eq i k)

all_from_at : (n i k : ℕ) (p : ℕ → Bool) → all_from n i p ≡ true → i ≤ k → k < i + n → p k ≡ true
all_from_at zero i k p h a b = ground arith
all_from_at (suc n) i k p h a b = elim (nat_cases i k) [
  | inl e ↦ ground (arith, e)
  | inr ne ↦ ground (arith, all_from_at n (suc i) k p)
]

delays_checked : all_from 180 0 (λ i. nat_eq (poll_delay i) (delay_table i)) ≡ true
unfolding poll_delay
delays_checked = refl

late_delay : (i : ℕ) → ltb i 180 ≡ false → poll_delay i ≡ delay_table i
unfolding poll_delay
late_delay i h = ground arith

-- A poll waits 1, 2 and 4 seconds, then 5 seconds up to the 63rd poll, then not at all up to the
-- 180th, and 10 seconds from there on.
pub poll_delay-table : (i : ℕ) → poll_delay i ≡ delay_table i
poll_delay-table i = elim (Bool-cases (ltb i 180)) [
  | inl h ↦ ground (
    arith,
    h,
    nat_eq_iff (poll_delay i) (delay_table i),
    all_from_at 180 0 i (λ k. nat_eq (poll_delay k) (delay_table k)) delays_checked,
  )
  | inr h ↦ late_delay i h
]

-- The polls `i`, … before the `n`-th of them give no verdict.
abbrev pub Undecided : ℕ → ℕ → (ℕ → TaskAnswer) → Type 0
Undecided zero i answers = Unit {0}
Undecided (suc n) i answers = (verdict (answers i) ≡ none) × Undecided n (suc i) answers

poll_loop-first :
    (left n i j : ℕ) (answers : ℕ → TaskAnswer) (r : Result Error String)
    → n < left
    → Undecided n i answers
    → j ≡ n + i
    → verdict (answers j) ≡ some r
    → ((poll_loop left i answers).result ≡ r) × ((poll_loop left i answers).requests ≡ suc n)
unfolding poll_loop poll_round
poll_loop-first zero n i j answers r h u e v = absurd (omega arith)
poll_loop-first (suc left) zero i j answers r h u e v = ground (arith, e, v)
poll_loop-first (suc left) (suc n) i j answers r h u e v =
    rw (u.0, poll_loop)
      (ground (arith, poll_loop-first left n (suc i) j answers r (omega arith) u.1 (omega arith) v))

poll_loop-timeout :
    (left i : ℕ) (answers : ℕ → TaskAnswer)
    → Undecided left i answers
    → ((poll_loop left i answers).result ≡ err translate)
      × ((poll_loop left i answers).requests ≡ left)
unfolding poll_loop poll_round
poll_loop-timeout zero i answers u = (refl, refl)
poll_loop-timeout (suc left) i answers u =
    rw (u.0, poll_loop) (ground (arith, poll_loop-timeout left (suc i) answers u.1))

-- What the delays of `left` polls from `i` on add up to.
abbrev delays : ℕ → ℕ → ℕ
delays zero i = 0
delays (suc left) i = poll_delay i + delays left (suc i)

delays_all : delays 360 0 ≡ 2107 * second
unfolding poll_delay
delays_all = refl

penalty_le : (a : TaskAnswer) → poll_penalty a ≤ 5 * second
penalty_le task_unreachable = omega arith
penalty_le task_malformed = omega arith
penalty_le (answered r) = omega arith

poll_loop-bounds :
    (left i : ℕ) (answers : ℕ → TaskAnswer)
    → ((poll_loop left i answers).slept ≤ delays left i + left * (5 * second))
      × ((poll_loop left i answers).requests ≤ left)
unfolding poll_loop poll_round
poll_loop-bounds zero i answers = (omega arith, omega arith)
poll_loop-bounds (suc left) i answers = elim (Option-cases (verdict (answers i))) [
  | inl e ↦
      rw (e, poll_loop)
        (ground (arith, penalty_le (answers i), poll_loop-bounds left (suc i) answers))
  | inr (r, e) ↦ rw (e, poll_loop) (ground arith)
]

poll_task-bounds :
    (answers : ℕ → TaskAnswer)
    → ((poll_task answers).slept ≤ 3907 * second) × ((poll_task answers).requests ≤ 360)
unfolding poll_task
poll_task-bounds answers = ground (arith, delays_all, poll_loop-bounds 360 0 answers)

round-bounds :
    (a : TaskAnswer) (polls : ℕ → ℕ → TaskAnswer) (rest : Outcome) (tries : ℕ)
    → rest.slept ≤ tries * (2 * second) + 3907 * second
    → rest.requests ≤ tries + 360
    → ((schedule_round a polls rest).slept ≤ suc tries * (2 * second) + 3907 * second)
      × ((schedule_round a polls rest).requests ≤ suc tries + 360)
unfolding schedule_round
round-bounds task_unreachable polls rest tries s r = (omega arith, omega arith)
round-bounds task_malformed polls rest tries s r = (omega arith, omega arith)
round-bounds (answered x) polls rest tries s r = ground (arith, poll_task-bounds (polls x.task.id))

schedule_loop-bounds :
    (tries : ℕ) (scheduled : ℕ → TaskAnswer) (polls : ℕ → ℕ → TaskAnswer)
    → ((schedule_loop tries scheduled polls).slept ≤ tries * (2 * second) + 3907 * second)
      × ((schedule_loop tries scheduled polls).requests ≤ tries + 360)
unfolding schedule_loop
schedule_loop-bounds zero scheduled polls = (omega arith, omega arith)
schedule_loop-bounds (suc tries) scheduled polls =
    let rest = schedule_loop-bounds tries scheduled polls in
    round-bounds (scheduled (suc tries)) polls (schedule_loop tries scheduled polls) tries rest.0
      rest.1

-- Whatever Nextcloud answers, `Translate` returns: it sleeps at most 3913 seconds and makes at most
-- 363 requests.
pub translate_message-bounds :
    (scheduled : Schedule → ℕ → TaskAnswer) (polls : ℕ → ℕ → TaskAnswer) (message : String)
    (t : OcpTranslator)
    → ((translate_message scheduled polls message t).slept ≤ 3913 * second)
      × ((translate_message scheduled polls message t).requests ≤ 363)
unfolding translate_message
translate_message-bounds scheduled polls message t =
    ground (arith, schedule_loop-bounds 3 (scheduled (sched_body message t)) polls)

-- The first `k` schedule requests fail, with `tries` tries left at the first.
abbrev pub Refused : ℕ → ℕ → (ℕ → TaskAnswer) → Type 0
Refused tries zero scheduled = Unit {0}
Refused zero (suc k) scheduled = Unit {0}
Refused (suc tries) (suc k) scheduled =
    (scheduled (suc tries) ≡ task_unreachable) × Refused tries k scheduled

schedule_loop-first :
    (tries k j : ℕ) (scheduled : ℕ → TaskAnswer) (polls : ℕ → ℕ → TaskAnswer) (x : TaskResponse)
    → k < tries
    → Refused tries k scheduled
    → tries ≡ j + k
    → scheduled j ≡ answered x
    → ((schedule_loop tries scheduled polls).result ≡ (poll_task (polls x.task.id)).result)
      × ((schedule_loop tries scheduled polls).requests
          ≡ suc k + (poll_task (polls x.task.id)).requests)
unfolding schedule_loop schedule_round
schedule_loop-first zero k j scheduled polls x h u e v = absurd (omega arith)
schedule_loop-first (suc tries) zero j scheduled polls x h u e v = ground (arith, e, v)
schedule_loop-first (suc tries) (suc k) j scheduled polls x h u e v =
    rw (u.0, schedule_loop)
      (ground
        (arith, schedule_loop-first tries k j scheduled polls x (omega arith) u.1 (omega arith) v))

-- At most two schedule requests fail and the next one answers with a task; the first `n` polls of
-- that task, fewer than 360, give no verdict and the next one does. Then `Translate` returns that
-- verdict, after one request for each of these answers, and asks nothing more.
pub translate_message-first :
    (scheduled : Schedule → ℕ → TaskAnswer) (polls : ℕ → ℕ → TaskAnswer) (message : String)
    (t : OcpTranslator) (k n : ℕ) (x : TaskResponse) (r : Result Error String)
    → k < 3
    → Refused 3 k (scheduled (sched_body message t))
    → scheduled (sched_body message t) (3 - k) ≡ answered x
    → n < 360
    → Undecided n 0 (polls x.task.id)
    → verdict (polls x.task.id n) ≡ some r
    → ((translate_message scheduled polls message t).result ≡ r)
      × ((translate_message scheduled polls message t).requests ≡ k + n + 2)
unfolding translate_message poll_task
translate_message-first scheduled polls message t k n x r hk refused e hn u v = ground (
  arith,
  schedule_loop-first 3 k (3 - k) (scheduled (sched_body message t)) polls x hk refused
      (omega arith) e,
  poll_loop-first 360 n 0 n (polls x.task.id) r hn u (omega arith) v,
)

-- A task that gives no verdict in 360 polls is given up with an error of the transient kind.
pub poll_task-timeout :
    (answers : ℕ → TaskAnswer)
    → Undecided 360 0 answers
    → ((poll_task answers).result ≡ err translate) × ((poll_task answers).requests ≡ 360)
unfolding poll_task
poll_task-timeout answers u = poll_loop-timeout 360 0 answers u
