-- ===== src/Vosk/Worker/Path.antt =====
-- The audio on its way from the participants' tracks through the client's channel and the worker to
-- the channel of transcripts (internal/signaling/client.go, internal/vosk/worker.go).
use go_live_transcription.Prelude.{
  ℕ, ◌≤◌, String, ◌≡◌, refl, Bool, true, ◌&&◌, some, List, [], ◌∷◌, ◌++◌, length, length-append,
  arith,
}
use go_live_transcription.Prelude.Int.{ℤ}
use go_live_transcription.Signaling.Client.{SpreedClient, PcmAudio}
use go_live_transcription.Signaling.Offers.{push_audio, pcm_audio_capacity}
use go_live_transcription.Signaling.Audio.{
  TrackRead, cancelled, read_fails, nothing_read, no_packet, no_payload, not_decoded, decoded,
  track_round,
}
use go_live_transcription.Vosk.Models.{ModelManager}
use go_live_transcription.Vosk.Manager.{new_transcriber_manager}
use go_live_transcription.Vosk.Chunks.{all_say}
use go_live_transcription.Vosk.Worker.{Worker, Vosk, worker_round}
use go_live_transcription.Vosk.Worker.Rounds.{all_from, Fine, round-Fine}
use go_live_transcription.Vosk.Worker.Changes.{Event, step, chooses, step-Fine, started-Fine}

-- The client and the worker of a room.
pub record Room : Type 0 where
  pub client : SpreedClient
  pub worker : Worker

-- A round of the reader of a session's track; the worker takes the first audio of the channel; or
-- something else happens to the worker.
pub data PathEvent : Type 0 where
  reads : String → TrackRead → PathEvent
  works : Vosk → PathEvent
  other : Event → PathEvent

-- The worker's round with the first audio, if there is any.
unfoldable pub work_first : List PcmAudio → ℕ → Vosk → Room → Room
work_first [] capacity v room = room
work_first (audio ∷ rest) capacity v room = record {
  client = record room.client { pcm_audio_ch = rest };
  worker = worker_round capacity v audio room.worker;
}

unfoldable pub path_step : ℕ → PathEvent → Room → Room
unfolding work_first track_round
path_step capacity (reads sid r) room = record room { client = (track_round sid r room.client).0 }
path_step capacity (works v) room = work_first room.client.pcm_audio_ch capacity v room
path_step capacity (other e) room = record room { worker = step capacity e room.worker }

unfoldable pub path_run : ℕ → List PathEvent → Room → Room
unfolding path_step
path_run capacity [] room = room
path_run capacity (e ∷ es) room = path_run capacity es (path_step capacity e room)

-- Audio of some sessions.
abbrev pub audio_from : (String → Bool) → List PcmAudio → Bool
audio_from spoke [] = true
audio_from spoke (a ∷ audio) = spoke a.session_id && audio_from spoke audio

-- Tracks are read only for some sessions, and only some languages are chosen.
abbrev pub path_only : (String → Bool) → (String → Bool) → List PathEvent → Bool
path_only spoke used [] = true
path_only spoke used (reads sid r ∷ es) = spoke sid && path_only spoke used es
path_only spoke used (works v ∷ es) = path_only spoke used es
path_only spoke used (other e ∷ es) = chooses used e && path_only spoke used es

module _ (spoke used : String → Bool) where
  audio_from-append :
      (audio : List PcmAudio) (a : PcmAudio)
      → audio_from spoke (audio ++ a ∷ []) ≡ (audio_from spoke audio && spoke a.session_id)
  audio_from-append [] a = ground arith
  audio_from-append (b ∷ audio) a = ground (arith, audio_from-append audio a)

  -- The channel of the client holds audio of some sessions, up to its capacity.
  abbrev Carries : SpreedClient → Type 0
  Carries c =
      (audio_from spoke c.pcm_audio_ch ≡ true) × (length c.pcm_audio_ch ≤ pcm_audio_capacity)

  push-Carries :
      (sid : String) (samples : List ℤ) (c : SpreedClient)
      → spoke sid ≡ true
      → Carries c
      → Carries (push_audio sid (some samples) c)
  unfolding push_audio
  push-Carries sid [] c p f = f
  push-Carries sid (x ∷ xs) c p f =
      let audio : PcmAudio = record { session_id = sid; samples = x ∷ xs; sample_rate = 48000 } in
      ground (
        arith,
        p,
        f,
        audio_from-append c.pcm_audio_ch audio,
        length-append c.pcm_audio_ch (audio ∷ []),
      )

  track-Carries :
      (sid : String) (r : TrackRead) (c : SpreedClient)
      → spoke sid ≡ true
      → Carries c
      → Carries (track_round sid r c).0
  unfolding track_round push_audio
  track-Carries sid cancelled c p f = f
  track-Carries sid read_fails c p f = f
  track-Carries sid nothing_read c p f = f
  track-Carries sid no_packet c p f = f
  track-Carries sid no_payload c p f = f
  track-Carries sid not_decoded c p f = f
  track-Carries sid (decoded samples) c p f = push-Carries sid samples c p f

  abbrev Flows : ℕ → Room → Type 0
  Flows capacity room = Carries room.client × Fine spoke used capacity room.worker

  work-Flows :
      (audio : List PcmAudio) (capacity : ℕ) (v : Vosk) (room : Room)
      → audio_from spoke audio ≡ true
      → length audio ≤ pcm_audio_capacity
      → Flows capacity room
      → Flows capacity (work_first audio capacity v room)
  unfolding work_first worker_round
  work-Flows [] capacity v room p n f = f
  work-Flows (a ∷ rest) capacity v room p n f =
      let w = room.worker in
      (
        (ground (arith, p), omega (arith, n)),
        round-Fine spoke used a.samples capacity v a w.managed.0 w.managed.1 w.transcript_ch
            (ground (arith, p)) f.1,
      )

  step-Flows :
      (capacity : ℕ) (e : PathEvent) (room : Room)
      → path_only spoke used (e ∷ []) ≡ true
      → Flows capacity room
      → Flows capacity (path_step capacity e room)
  unfolding path_step
  step-Flows capacity (reads sid r) room h f =
      (track-Carries sid r room.client (ground (arith, h)) f.0, f.1)
  step-Flows capacity (works v) room h f =
      work-Flows room.client.pcm_audio_ch capacity v room f.0.0 f.0.1 f
  step-Flows capacity (other e) room h f =
      (f.0, step-Fine spoke used capacity e room.worker (ground (arith, h)) f.1)

  first_is_allowed :
      (e : PathEvent) (es : List PathEvent)
      → path_only spoke used (e ∷ es) ≡ true
      → (path_only spoke used (e ∷ []) ≡ true) × (path_only spoke used es ≡ true)
  first_is_allowed (reads sid r) es h = ground (arith, h)
  first_is_allowed (works v) es h = (refl, h)
  first_is_allowed (other e) es h = ground (arith, h)

  run-Flows :
      (capacity : ℕ) (es : List PathEvent) (room : Room)
      → path_only spoke used es ≡ true
      → Flows capacity room
      → Flows capacity (path_run capacity es room)
  unfolding path_run
  run-Flows capacity [] room h f = f
  run-Flows capacity (e ∷ es) room h f =
      let (here, later) = first_is_allowed e es h in
      run-Flows capacity es (path_step capacity e room) later (step-Flows capacity e room here f)

  -- A room starts with a client whose channel of audio is empty and with a worker without
  -- recognizers, whose channel of transcripts is empty. Whatever the tracks give, whatever Vosk makes
  -- of the audio, in whatever order the readers, the worker and the sender run: if tracks are read
  -- only for sessions of one kind, and the room's first and all later languages are of one kind, then
  -- every transcript in the channel is one of such a session in such a language, none is empty or
  -- just "the", and neither channel holds more than its capacity.
  pub path_run-attributes :
      (capacity : ℕ) (es : List PathEvent) (lang : String) (rate : ℕ) (mm : ModelManager)
      (c : SpreedClient)
      → c.pcm_audio_ch ≡ []
      → used lang ≡ true
      → path_only spoke used es ≡ true
      → let end = path_run capacity es (record {
        client = c;
        worker = record { managed = (new_transcriber_manager lang rate, mm); transcript_ch = [] };
      }) in
        (all_from spoke used end.worker.transcript_ch ≡ true)
        × (all_say end.worker.transcript_ch ≡ true)
        × (length end.worker.transcript_ch ≤ capacity)
        × (length end.client.pcm_audio_ch ≤ 100)
  path_run-attributes capacity es lang rate mm c silent q h =
      let first : Room = record {
        client = c;
        worker = record { managed = (new_transcriber_manager lang rate, mm); transcript_ch = [] };
      } in
      let carries : Carries c = ground (arith, silent) in
      let end =
        run-Flows capacity es first h (carries, started-Fine spoke used capacity lang rate mm q) in
      (end.1.from, end.1.meaning, end.1.room, end.0.1)
