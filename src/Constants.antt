-- ===== src/Constants.antt =====
-- internal/constants/constants.go, the durations in nanoseconds as in Go's `time.Duration`.
use go_live_transcription.Prelude.{ℕ, ◌*◌}

abbrev pub second : ℕ
second = 1_000_000_000

abbrev pub minute : ℕ
minute = 60 * second

abbrev pub max_connect_tries : ℕ
max_connect_tries = 5

abbrev pub ocp_task_proc_sched_retries : ℕ
ocp_task_proc_sched_retries = 3

abbrev pub send_timeout : ℕ
send_timeout = 10 * second

abbrev pub cache_translation_langs_for : ℕ
cache_translation_langs_for = 15 * minute

abbrev pub cache_translation_task_types : ℕ
cache_translation_task_types = 15 * minute

abbrev pub max_transcript_send_timeout : ℕ
max_transcript_send_timeout = 30 * second

abbrev pub max_translation_send_timeout : ℕ
max_translation_send_timeout = 60 * second
