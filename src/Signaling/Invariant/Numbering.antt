-- ===== src/Signaling/Invariant/Numbering.antt =====
-- Every message that leaves a client carries the next number (the `msgID` of
-- internal/signaling/client.go), whichever operation sends it.
use go_live_transcription.Prelude.{
  ℕ, zero, suc, ◌+◌, ◌%◌, ◌^◌, ◌≡◌, refl, ap, Option, some, List, [], ◌∷◌, ◌++◌, length, arith,
}
use go_live_transcription.Signaling.Messages.{SignalingMessage}
use go_live_transcription.Signaling.Client.{SpreedClient, send_message}

abbrev pub ids : List SignalingMessage → List (Option ℕ)
ids [] = []
ids (m ∷ ms) = m.id ∷ ids ms

-- The numbers 1, 2, …, n of a 64-bit counter.
abbrev pub numbers : ℕ → List (Option ℕ)
numbers zero = []
numbers (suc n) = numbers n ++ some (suc n % 2 ^ 64) ∷ []

pub record IsNumbered (ms : List SignalingMessage) (id : ℕ) : Type 0 where
  pub in_order : ids ms ≡ numbers (length ms)
  pub counter : id ≡ length ms % 2 ^ 64

-- The messages sent so far have the numbers 1, 2, …, and the counter is at the last.
abbrev pub Numbered : SpreedClient → Type 0
Numbered c = IsNumbered c.sent c.msg_id

ids-append :
    (xs : List SignalingMessage) (m : SignalingMessage) → ids (xs ++ m ∷ []) ≡ ids xs ++ m.id ∷ []
ids-append [] m = refl
ids-append (x ∷ xs) m = ap (◌∷◌ x.id) (ids-append xs m)

length-snoc :
    (xs : List SignalingMessage) (m : SignalingMessage) → length (xs ++ m ∷ []) ≡ suc (length xs)
length-snoc [] m = refl
length-snoc (x ∷ xs) m = ap suc (length-snoc xs m)

pub IsNumbered-snoc :
    (ms : List SignalingMessage) (id : ℕ) (m : SignalingMessage)
    → IsNumbered ms id
    → IsNumbered (ms ++ record m { id = some ((id + 1) % 2 ^ 64) } ∷ []) ((id + 1) % 2 ^ 64)
IsNumbered-snoc ms id m v = record {
  in_order =
      rw (ids-append ms, length-snoc ms, v.in_order)
        (ap (λ k. numbers (length ms) ++ some k ∷ []) (omega (arith, v.counter)));
  counter = rw (length-snoc ms) (omega (arith, v.counter));
}

pub send-Numbered :
    (m : SignalingMessage) (c : SpreedClient) → Numbered c → Numbered (send_message m c)
unfolding send_message
send-Numbered m c v = ground (arith, IsNumbered-snoc c.sent c.msg_id m v)
