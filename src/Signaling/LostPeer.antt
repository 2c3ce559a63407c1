-- ===== src/Signaling/LostPeer.antt =====
-- A state change that arrives late (`OnConnectionStateChange` of internal/signaling/client.go).
use go_live_transcription.Prelude.{
  ℕ, String, ◌==◌, eq_iff, eq_refl, Bool, false, ◌≡◌, refl, inl, inr, none, some, List, [], ◌∷◌,
  ◌++◌, arith, nat_eq, ◌||◌, Option-cases, if◌then◌else◌,
}
use go_live_transcription.GoMap.{GoMap, lookup, insert, delete, values}
use go_live_transcription.GoMap.Laws.{lookup-delete}
use go_live_transcription.Signaling.Client.{SpreedClient, close, send_message}
use go_live_transcription.Signaling.Offers.{
  PeerSetup, closed, establish, accept_offer, drop_peer, negotiate, send_offer_answer,
  peer_state_changed,
}

abbrev pub elem : ℕ → List ℕ → Bool
elem x [] = false
elem x (y ∷ ys) = nat_eq x y || elem x ys

elem-append : (x : ℕ) (xs ys : List ℕ) → elem x (xs ++ ys) ≡ (elem x xs || elem x ys)
elem-append x [] ys = refl
elem-append x (y ∷ xs) ys = ground (arith, elem-append x xs ys)

elem-delete :
    (x : ℕ) (k : String) (m : GoMap ℕ)
    → elem x (values m) ≡ false
    → elem x (values (delete k m)) ≡ false
unfolding delete
elem-delete x k [] h = refl
elem-delete x k ((j, v) ∷ m) h = ground (arith, elem-delete x k m)

-- A fresh connection is gone from the map once the session's entries are deleted.
elem-delete-insert :
    (x : ℕ) (k : String) (m : GoMap ℕ)
    → elem x (values m) ≡ false
    → elem x (values (delete k (insert k x m))) ≡ false
unfolding delete insert
elem-delete-insert x k [] h = ground (arith, eq_refl k)
elem-delete-insert x k ((j, v) ∷ m) h =
    ground (arith, eq_iff j k, eq_refl k, elem-delete x k m, elem-delete-insert x k m)

elem_of_lookup :
    (x y : ℕ) (k : String) (m : GoMap ℕ)
    → elem x (values m) ≡ false
    → lookup k m ≡ some y
    → nat_eq x y ≡ false
unfolding lookup
elem_of_lookup x y k [] h e = cc
elem_of_lookup x y k ((j, v) ∷ m) h e = ground (arith, elem_of_lookup x y k m)

-- A connection that the client neither holds nor has closed.
abbrev pub Unknown : ℕ → SpreedClient → Type 0
Unknown pc c = (elem pc (values c.peer_conns) ≡ false) × (elem pc c.closed_peers ≡ false)

drop_peer-Unknown :
    (pc : ℕ) (sid : String) (c : SpreedClient) → Unknown pc c → Unknown pc (drop_peer sid c)
unfolding drop_peer
drop_peer-Unknown pc sid c h = elim (Option-cases (lookup sid c.peer_conns)) [
  | inl e ↦ rw (e, drop_peer) h
  | inr (y, e) ↦
      rw (e, drop_peer)
        (
          elem-delete pc sid c.peer_conns h.0,
          ground (
            arith,
            h,
            elem-append pc c.closed_peers (y ∷ []),
            elem_of_lookup pc y sid c.peer_conns h.0 e,
          ),
        )
]

pub close-Unknown : (pc : ℕ) (c : SpreedClient) → Unknown pc c → Unknown pc (close c)
unfolding close
close-Unknown pc c h = ground (arith, h, elem-append pc c.closed_peers (values c.peer_conns))

closed-establish :
    (pc : ℕ) (sdp speaker sid to : String) (c : SpreedClient)
    → Unknown pc c
    → let d = peer_state_changed speaker closed (establish (some pc) (some sdp) speaker sid to c) in
      (lookup speaker d.peer_conns ≡ none) × Unknown pc d
unfolding peer_state_changed establish send_offer_answer send_message
closed-establish pc sdp speaker sid to c h = ground (
  arith,
  h,
  elem-delete-insert pc speaker c.peer_conns h.0,
  lookup-delete speaker speaker (insert speaker pc c.peer_conns),
  eq_refl speaker,
)

-- The callback names the speaker and not the peer connection. When a new offer replaces a speaker's
-- peer connection and the old one's `closed` arrives after the new one is stored, the new one is
-- forgotten: the speaker has no entry, and closing the client does not close the new connection.
pub replaced_peer_is_lost :
    (s : PeerSetup) (pc : ℕ) (sdp speaker sid from : String) (c : SpreedClient)
    → s.new_peer ≡ some pc
    → negotiate s ≡ some sdp
    → Unknown pc c
    → let d = peer_state_changed speaker closed (accept_offer s speaker sid from c) in
      (lookup speaker d.peer_conns ≡ none) × Unknown pc (close d)
unfolding accept_offer
replaced_peer_is_lost s pc sdp speaker sid from c e n h =
    let (gone, lost) =
      closed-establish pc sdp speaker sid (if from == "" then speaker else from) _
        (drop_peer-Unknown pc speaker c h) in
    rw (n, e, accept_offer) (gone, close-Unknown pc _ lost)
