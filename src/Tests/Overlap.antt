-- ===== src/Tests/Overlap.antt =====
-- Overlapping requests: the theorems at inputs.
use go_live_transcription.Prelude.{ℕ, ◌≡◌, refl, true, false, some, [], ◌∷◌, arith}
use go_live_transcription.GoMap.{lookup}
use go_live_transcription.Service.Overlap.{
  Request, System, Event, looking, looks, installs, attempts, shuts_down, step, run,
}
use go_live_transcription.Service.Overlap.Invariant.{owner}
use go_live_transcription.Service.Overlap.Orderly.{here, next, rooms_are_kept}
use go_live_transcription.Service.Overlap.Lost.{overlapping_requests_lose_a_room}
use go_live_transcription.Tests.Samples.{settings}
use go_live_transcription.Tests.Service.{room, endpoints, hmac, unreachable}

-- Every request is for the same room.
abbrev request : ℕ → Request
request i = record { token = "room"; nc = "n"; lang = "en"; enable = true }

abbrev before : System
before = record {
  rooms = [];
  heap = λ p. record room { running = false };
  next = 0;
  phases = λ i. looking;
}

abbrev go : Event → System → System
go = step hmac endpoints settings request

-- The first request has its room in the map and one failed attempt behind it.
abbrev later : System
later = go (attempts 0 (unreachable 0)) (go (installs 0) (go (looks 0) before))

rooms_are_kept_example :
    ((p : ℕ) → (later.heap p).running ≡ true → lookup (owner later.heap p) later.rooms ≡ some p)
    × ((p : ℕ) → ((step hmac endpoints settings request shuts_down later).heap p).running ≡ false)
rooms_are_kept_example =
    rooms_are_kept hmac endpoints settings request before later (refl, λ p. refl, λ i. refl)
      (next (go (installs 0) (go (looks 0) before)) (attempts 0 (unreachable 0))
        (next (go (looks 0) before) (installs 0)
          (next before (looks 0) here (λ j h. absurd (ground (arith, h)))) tt)
        tt)

overlapping_requests_lose_a_room_example :
    let t =
      run hmac endpoints settings request
        (looks 0 ∷ looks 1 ∷ installs 0 ∷ installs 1 ∷ shuts_down ∷ [])
        before in
    (t.rooms ≡ []) × ((t.heap 0).running ≡ true)
unfolding lookup
overlapping_requests_lose_a_room_example =
    overlapping_requests_lose_a_room hmac endpoints settings request 0 1 before (ground (arith))
      refl refl refl refl refl refl tt
