-- ===== src/Tests/Task.antt =====
-- Translation tasks: runs, and the theorems at inputs.
use go_live_transcription.Prelude.{
  ℕ, ◌*◌, ◌≤◌, ◌≡◌, refl, some, [], ◌∷◌, ok, arith, nat_eq, if◌then◌else◌,
}
use go_live_transcription.Constants.{second}
use go_live_transcription.Translation.Ocp.{OcpTranslator, new_ocp_translator}
use go_live_transcription.Translation.Task.{
  Task, TaskAnswer, task_unreachable, task_malformed, answered, Schedule, poll_delay, poll_task,
  translate_message, verdict,
}
use go_live_transcription.Translation.Polling.{
  delay_table, poll_delay-table, translate_message-bounds, translate_message-first,
}

abbrev task : Task
task = record { id = 7; status = "STATUS_SUCCESSFUL"; output = some (("output", "hallo") ∷ []) }

-- The first schedule request fails, the next gives task 7.
abbrev scheduled : Schedule → ℕ → TaskAnswer
scheduled s tries =
    if nat_eq tries 3
    then task_unreachable
    else answered (record { task = record task { status = "STATUS_SCHEDULED" } })

-- One poll fails, one does not parse, the next gives the output.
abbrev polls : ℕ → ℕ → TaskAnswer
polls id n =
    if nat_eq n 0
    then task_unreachable
    else (if nat_eq n 1 then task_malformed else answered (record { task = task }))

abbrev translator : OcpTranslator
translator = new_ocp_translator "en" "de" "room"

poll_delay-table_example : poll_delay 70 ≡ delay_table 70
poll_delay-table_example = poll_delay-table 70

polls_at_once : poll_delay 70 ≡ 0
unfolding poll_delay
polls_at_once = refl

abbrev dead : ℕ → TaskAnswer
dead n = task_malformed

slept_in_vain : (poll_task dead).slept ≡ 2107 * second
unfolding poll_task verdict poll_delay
slept_in_vain = refl

translate_message-bounds_example :
    ((translate_message scheduled polls "hello" translator).slept ≤ 3913 * second)
    × ((translate_message scheduled polls "hello" translator).requests ≤ 363)
translate_message-bounds_example = translate_message-bounds scheduled polls "hello" translator

translate_message-first_example :
    ((translate_message scheduled polls "hello" translator).result ≡ ok "hallo")
    × ((translate_message scheduled polls "hello" translator).requests ≡ 5)
unfolding verdict go_live_transcription.GoMap.lookup
translate_message-first_example =
    translate_message-first scheduled polls "hello" translator 1 2
      (record { task = record task { status = "STATUS_SCHEDULED" } }) (ok "hallo") (omega arith)
      (refl, tt) refl (omega arith) (refl, (refl, tt)) refl
