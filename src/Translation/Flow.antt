-- ===== src/Translation/Flow.antt =====
-- The way of a translation from the sender through the goroutine of a call's translators to the
-- translated sender (internal/transcript/sender.go, internal/translation/meta.go,
-- internal/translation/sender.go): two channels, and the jobs that are under way between them.
pub mod Asked
pub mod Segments
pub mod Delivered
use go_live_transcription.Prelude.{
  ℕ, zero, suc, String, Bool, ◌&&◌, Option, none, some, List, [], ◌∷◌, ◌++◌, if◌then◌else◌, Result,
}
use go_live_transcription.Signaling.Client.{Transcript}
use go_live_transcription.Translation.Ocp.{Fetch, Error}
use go_live_transcription.Translation.Meta.{
  MetaTranslator, TranslateInputOutput, add_translator, remove_translator, set_room_lang_id,
  shutdown, fan_out, handle_translation,
}
use go_live_transcription.Sending.Transcript.{forward}

-- `taken` lists the segments that the translated sender has taken.
pub record Flow : Type 0 where
  pub meta : MetaTranslator
  pub translate_in : List TranslateInputOutput
  pub jobs : List TranslateInputOutput
  pub translate_out : List TranslateInputOutput
  pub taken : List TranslateInputOutput

-- The capacity of both channels.
abbrev pub translate_capacity : ℕ
translate_capacity = 100

-- What happens: a transcript comes to the sender, with the answer of `ShouldTranslate`; the goroutine
-- takes a segment; a job ends with the result of `Translate`; the translated sender takes a segment;
-- the targets, the room's language or the whole call change.
pub data FlowEvent : Type 0 where
  says : Bool → Transcript → FlowEvent
  fans_out takes shuts_down : FlowEvent
  finishes : ℕ → Result Error String → FlowEvent
  adds : ℕ → Fetch → String → String → FlowEvent
  removes sets_language : String → FlowEvent

-- The goroutine's case for a segment.
unfoldable pub fan_first : List TranslateInputOutput → Flow → Flow
fan_first [] w = w
fan_first (seg ∷ rest) w = record w {
  translate_in = rest;
  jobs = w.jobs ++ fan_out seg w.meta.translators;
}

-- A job by its place, and the others.
unfoldable pub job_at :
    ℕ → List TranslateInputOutput → Option (TranslateInputOutput × List TranslateInputOutput)
job_at n [] = none
job_at zero (seg ∷ jobs) = some (seg, jobs)
job_at (suc n) (seg ∷ jobs) = elim (job_at n jobs) [
  | none ↦ none
  | some found ↦ some (found.0, seg ∷ found.1)
]

unfoldable pub finish_job :
    Option (TranslateInputOutput × List TranslateInputOutput) → Result Error String → Flow → Flow
finish_job none result w = w
finish_job (some (seg, jobs)) result w = record w {
  jobs = jobs;
  translate_out = handle_translation translate_capacity result seg w.translate_out;
}

unfoldable pub take_first : List TranslateInputOutput → Flow → Flow
take_first [] w = w
take_first (seg ∷ rest) w = record w { translate_out = rest; taken = w.taken ++ seg ∷ [] }

unfoldable pub flow_step : FlowEvent → Flow → Flow
unfolding fan_first finish_job take_first
flow_step (says forwards t) w = record w {
  translate_in =
      if t.final && forwards then forward translate_capacity t w.translate_in else w.translate_in;
}
flow_step fans_out w = if w.meta.running then fan_first w.translate_in w else w
flow_step takes w = take_first w.translate_out w
flow_step shuts_down w = record w { meta = shutdown w.meta }
flow_step (finishes n result) w = finish_job (job_at n w.jobs) result w
flow_step (adds now f lang nc) w = record w { meta = (add_translator now f lang nc w.meta).0 }
flow_step (removes nc) w = record w { meta = remove_translator nc w.meta }
flow_step (sets_language lang) w = record w { meta = set_room_lang_id lang w.meta }

unfoldable pub flow_run : List FlowEvent → Flow → Flow
unfolding flow_step
flow_run [] w = w
flow_run (e ∷ es) w = flow_run es (flow_step e w)
