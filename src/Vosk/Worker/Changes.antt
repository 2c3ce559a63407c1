-- ===== src/Vosk/Worker/Changes.antt =====
-- What happens to the audio worker beside audio, and what it keeps then (internal/vosk/worker.go).
use go_live_transcription.Prelude.{ℕ, String, ◌≡◌, refl, Bool, true, List, [], ◌∷◌, arith}
use go_live_transcription.GoMap.{lookup}
use go_live_transcription.Signaling.Client.{Transcript}
use go_live_transcription.Vosk.Models.{ModelManager, ModelDirectory}
use go_live_transcription.Vosk.Manager.{new_transcriber_manager, close_all}
use go_live_transcription.Vosk.Chunks.{takes-room, behind_first}
use go_live_transcription.Vosk.Worker.{Worker, worker_round, worker_set_language, worker_stops}
use go_live_transcription.Vosk.Worker.Rounds.{all_from, Fine, switched-Fine}

-- What happens to a worker beside audio: the language of the room changes, the sender takes a
-- transcript, or the room ends.
pub data Event : Type 0 where
  switches : (String → ModelDirectory) → String → Event
  takes stops : Event

abbrev pub step : ℕ → Event → Worker → Worker
step capacity (switches at lang) w = (worker_set_language at lang w).0
step capacity takes w = record w { transcript_ch = behind_first w.transcript_ch }
step capacity stops w = worker_stops w

-- The language that an event chooses, if any, is one of some.
abbrev pub chooses : (String → Bool) → Event → Bool
chooses used (switches at lang) = used lang
chooses used takes = true
chooses used stops = true

module _ (spoke used : String → Bool) where
  takes-from :
      (ts : List Transcript)
      → all_from spoke used ts ≡ true
      → all_from spoke used (behind_first ts) ≡ true
  takes-from [] h = h
  takes-from (t ∷ ts) h = ground (arith, h)

  pub step-Fine :
      (capacity : ℕ) (e : Event) (w : Worker)
      → chooses used e ≡ true
      → Fine spoke used capacity w
      → Fine spoke used capacity (step capacity e w)
  unfolding worker_round worker_set_language worker_stops close_all lookup
  step-Fine capacity (switches at lang) w h f =
      switched-Fine spoke used at capacity lang w.managed.0 w.managed.1 w.transcript_ch h f
  step-Fine capacity takes w h f =
      let taken = takes-room w.transcript_ch capacity f.room f.meaning in
      record {
        own = f.own;
        current = f.current;
        room = taken.0;
        meaning = taken.1;
        from = takes-from w.transcript_ch f.from;
      }
  step-Fine capacity stops w h f = record {
    own = λ sid. tt;
    current = f.current;
    room = f.room;
    meaning = f.meaning;
    from = f.from;
  }

  -- A worker starts without recognizers and with an empty channel.
  pub started-Fine :
      (capacity : ℕ) (lang : String) (rate : ℕ) (mm : ModelManager)
      → used lang ≡ true
      → Fine spoke used capacity
          (record { managed = (new_transcriber_manager lang rate, mm); transcript_ch = [] })
  unfolding new_transcriber_manager lookup
  started-Fine capacity lang rate mm q = record {
    own = λ sid. tt;
    current = q;
    room = omega arith;
    meaning = refl;
    from = refl;
  }
