-- ===== src/Translation/Task.antt =====
-- A translation as a task of Nextcloud: `Translate` and `pollTask` of internal/translation/ocp.go.
-- The answers to the requests are arguments; the time that the calls sleep is counted, in
-- nanoseconds.
use go_live_transcription.Prelude.{
  ℕ, zero, suc, ◌+◌, ◌*◌, ◌%◌, ◌^◌, String, ◌==◌, Option, none, some, Result, ok, err,
  if◌then◌else◌, ltb,
}
use go_live_transcription.Constants.{second, ocp_task_proc_sched_retries}
use go_live_transcription.GoMap.{GoMap, lookup}
use go_live_transcription.Translation.Ocp.{OcpTranslator, Error, translate, translate_task_type}

pub record Task : Type 0 where
  pub id : ℕ
  pub status : String
  pub output : Option (GoMap String)  -- none is the nil map

pub record TaskResponse : Type 0 where
  pub task : Task

-- The answer to a request about a task: none, one that does not parse, or the task.
pub data TaskAnswer : Type 0 where
  task_unreachable task_malformed : TaskAnswer
  answered : TaskResponse → TaskAnswer

-- The body of the request that schedules a task. The source joins `custom_id` from the four texts.
pub record Schedule : Type 0 where
  pub type : String
  pub app_id : String
  pub custom_id : String × String × String × String
  pub input : String
  pub origin_language : String
  pub target_language : String

unfoldable pub sched_body : String → OcpTranslator → Schedule
sched_body message t = record {
  type = translate_task_type;
  app_id = "live_transcription";
  custom_id = ("lt", t.room_token, t.origin_language, t.target_language);
  input = message;
  origin_language = t.ocp_origin_lang_id;
  target_language = t.target_language;
}

abbrev pub two_63 : ℕ
two_63 = 9_223_372_036_854_775_808

abbrev pub two_64 : ℕ
two_64 = 18_446_744_073_709_551_616

-- `min(1<<i, 5)` on the bits of a signed 64-bit integer: from `two_63` on they stand for a negative
-- number, which is the smaller one.
abbrev pub min_5 : ℕ → ℕ
min_5 bits = if ltb bits two_63 then (if ltb bits 5 then bits else 5) else bits

-- `time.Sleep` returns at once where the duration is negative.
abbrev pub sleep : ℕ → ℕ
sleep bits = if ltb bits two_63 then bits else 0

-- What `pollTask` sleeps before its poll `i`.
unfoldable pub poll_delay : ℕ → ℕ
poll_delay i = if ltb i 180 then sleep (min_5 (2 ^ i % two_64) * second % two_64) else 10 * second

-- The switch over the status: the result, where the task has come to an end.
abbrev pub output_of : Option (GoMap String) → Result Error String
output_of none = err translate
output_of (some output) = elim (lookup "output" output) [
  | none ↦ err translate
  | some text ↦ ok text
]

unfoldable pub verdict : TaskAnswer → Option (Result Error String)
verdict task_unreachable = none
verdict task_malformed = none
verdict (answered r) =
    if r.task.status == "STATUS_SUCCESSFUL"
    then some (output_of r.task.output)
    else (if r.task.status == "STATUS_FAILED" then some (err translate) else none)

-- What a poll sleeps after a request that failed.
abbrev pub poll_penalty : TaskAnswer → ℕ
poll_penalty task_unreachable = 5 * second
poll_penalty task_malformed = 0
poll_penalty (answered r) = 0

-- A result with the time that was slept and the requests that were made for it.
pub record Outcome : Type 0 where
  pub result : Result Error String
  pub slept : ℕ
  pub requests : ℕ

-- One round of the loop, before the rounds that follow.
unfoldable pub poll_round : Option (Result Error String) → ℕ → ℕ → Outcome → Outcome
poll_round (some r) delay penalty rest = record { result = r; slept = delay; requests = 1 }
poll_round none delay penalty rest = record {
  result = rest.result;
  slept = delay + penalty + rest.slept;
  requests = suc rest.requests;
}

-- The loop of `pollTask` with `left` rounds to go, at its round `i`.
unfoldable pub poll_loop : ℕ → ℕ → (ℕ → TaskAnswer) → Outcome
unfolding poll_round
poll_loop zero i answers = record { result = err translate; slept = 0; requests = 0 }
poll_loop (suc left) i answers =
    poll_round (verdict (answers i)) (poll_delay i) (poll_penalty (answers i))
      (poll_loop left (suc i) answers)

unfoldable pub poll_task : (ℕ → TaskAnswer) → Outcome
unfolding poll_loop
poll_task answers = poll_loop 360 0 answers

-- A round of the loop of `Translate`, from the answer to its request; `polls` are the answers to
-- the polls of a task by its number, `rest` is what the rounds that follow give.
unfoldable pub schedule_round : TaskAnswer → (ℕ → ℕ → TaskAnswer) → Outcome → Outcome
schedule_round task_unreachable polls rest = record rest {
  slept = 2 * second + rest.slept;
  requests = suc rest.requests;
}
schedule_round task_malformed polls rest = record {
  result = err translate;
  slept = 0;
  requests = 1;
}
schedule_round (answered r) polls rest =
    let o = poll_task (polls r.task.id) in record o { requests = suc o.requests }

unfoldable pub schedule_loop : ℕ → (ℕ → TaskAnswer) → (ℕ → ℕ → TaskAnswer) → Outcome
unfolding schedule_round
schedule_loop zero scheduled polls = record { result = err translate; slept = 0; requests = 0 }
schedule_loop (suc tries) scheduled polls =
    schedule_round (scheduled (suc tries)) polls (schedule_loop tries scheduled polls)

-- `Translate`: `scheduled` answers the schedule requests by the tries that are left.
unfoldable pub translate_message :
    (Schedule → ℕ → TaskAnswer) → (ℕ → ℕ → TaskAnswer) → String → OcpTranslator → Outcome
unfolding schedule_loop
translate_message scheduled polls message t =
    schedule_loop ocp_task_proc_sched_retries (scheduled (sched_body message t)) polls
