-- ===== src/Tests/Signaling.antt =====
-- The client of the signaling server: runs, and the theorems at inputs.
use go_live_transcription.Prelude.{
  String, ◌==◌, Bool, true, false, ◌≡◌, refl, inr, none, some, List, [], ◌∷◌, arith, ne_of_eq_false,
}
use go_live_transcription.GoMap.{lookup, has}
use go_live_transcription.Signaling.Messages.{no_reconnect}
use go_live_transcription.Signaling.Client.{close, send_message}
use go_live_transcription.Signaling.Targets.{
  add_target, remove_target, send_transcript, transcript_message,
}
use go_live_transcription.Signaling.Offers.{accept_offer, peer_state_changed, closed, negotiate}
use go_live_transcription.Signaling.Events.{handle_user}
use go_live_transcription.Signaling.Connect.{
  connect, reaction, handshake, send_hello, open_session, complete,
}
use go_live_transcription.Signaling.Monitor.{message, handle_received}
use go_live_transcription.Signaling.Calls.{
  Call, adds_target, handles, drops_peer, establishes, sends_transcript, closes,
}
use go_live_transcription.Signaling.Closing.{Released, close-Released}
use go_live_transcription.Signaling.LateOffer.{HoldsOpen, offer_message, late_offer_leaks}
use go_live_transcription.Signaling.Delivery.{having_sent, send_transcript-having_sent}
use go_live_transcription.Signaling.Waiting.{add_target_then_join, withdrawn_target_leaks}
use go_live_transcription.Signaling.Connections.{Joined, connect-Joined, retry_reports_success}
use go_live_transcription.Signaling.LostPeer.{Unknown, replaced_peer_is_lost}
use go_live_transcription.Tests.Samples.{
  fresh, busy, said, welcome, greeting, hello, refusal, joining, update_of, setup, no_hmac,
}

abbrev calls : List Call
calls =
    adds_target "n3"
    ∷ handles (message setup (update_of (joining ∷ [])))
    ∷ drops_peer "h1"
    ∷ sends_transcript said none
    ∷ closes
    ∷ establishes (some 9) (some "sdp") "h1" "o" "h1"
    ∷ handles (message setup (offer_message "h1" "o" "" "sdp"))
    ∷ []

close-Released_example : Released busy (close busy)
close-Released_example = close-Released busy refl (inr (4, refl, refl))

abbrev is_second : String → Bool
is_second nc = nc == "n2"

send_transcript-having_sent_example :
    send_transcript said (some is_second) busy
    ≡ having_sent (transcript_message said "h1" ∷ []) busy
send_transcript-having_sent_example = send_transcript-having_sent said (some is_second) busy refl

add_target_then_join_example : has "h3" (handle_user joining (add_target "n3" fresh)).targets ≡ true
unfolding lookup
add_target_then_join_example =
    (add_target_then_join joining fresh
      (record { external = refl; present = refl; named = ne_of_eq_false "n3" "" refl }) refl).0

withdrawn_target_leaks_example : (remove_target "n3" (add_target "n3" busy)).pending_timers ≡ []
unfolding lookup
withdrawn_target_leaks_example = (withdrawn_target_leaks "n3" busy (inr (4, refl, refl)) refl).2

connect-Joined_example :
    Joined no_hmac "x" fresh greeting
      (connect no_hmac "x" true (some welcome ∷ some hello ∷ []) no_reconnect fresh)
unfolding reaction
connect-Joined_example =
    connect-Joined no_hmac "x" (welcome ∷ []) hello greeting [] fresh refl (refl, tt) (omega arith)
      refl refl

retry_reports_success_example :
    (connect no_hmac "x" true (some refusal ∷ []) no_reconnect fresh).client.cancel ≡ false
unfolding connect open_session handshake complete reaction send_hello send_message
retry_reports_success_example =
    (retry_reports_success no_hmac "x" (some refusal ∷ []) [] true fresh refl refl refl).1

replaced_peer_is_lost_example :
    Unknown 9 (close (peer_state_changed "h1" closed (accept_offer setup "h1" "o" "" busy)))
unfolding negotiate
replaced_peer_is_lost_example =
    (replaced_peer_is_lost setup 9 "sdp" "h1" "o" "" busy refl refl (refl, refl)).1

late_offer_leaks_example :
    HoldsOpen 9 "h1"
      (handle_received (message setup (offer_message "h1" "o" "" "sdp")) (close busy)).0
unfolding negotiate
late_offer_leaks_example =
    late_offer_leaks setup 9 "sdp" "h1" "o" "" "sdp" busy refl refl refl (refl, refl)
