-- ===== src/Signaling/Closing.antt =====
-- What closing a client releases (`Close` of internal/signaling/client.go).
use go_live_transcription.Prelude.{
  ◌+◌, ◌%◌, ◌^◌, true, false, ◌≡◌, none, some, [], ◌∷◌, ◌++◌, arith, if◌then◌else◌,
}
use go_live_transcription.GoMap.{values}
use go_live_transcription.Signaling.Client.{SpreedClient, close, bye_message}
use go_live_transcription.Signaling.Invariant.Client.{OneTimer}

-- Everything that a client holds has been given back, and the server and the application told.
pub record Released (c d : SpreedClient) : Type 0 where
  pub unplugged : (d.conn ≡ false) × (d.cancel ≡ false) × (d.defunct ≡ true)
  pub no_peers : d.peer_conns ≡ []
  pub peers_closed : d.closed_peers ≡ c.closed_peers ++ values c.peer_conns
  pub no_timer : (d.pending_timers ≡ []) × (d.deferred_close_timer ≡ none)
  pub one_callback : d.callbacks ≡ c.callbacks + 1
  pub one_bye : d.sent ≡ (
      if c.conn
      then c.sent ++ record bye_message { id = some ((c.msg_id + 1) % 2 ^ 64) } ∷ []
      else c.sent)

-- Closing a live client with at most one timer pending: it has no connection, monitor, timer or
-- peer connection afterwards, every peer connection that it had is closed, one goroutine has been
-- started on the callback, and, where there was a connection, exactly one message has been sent, a
-- bye with the next number.
pub close-Released :
    (c : SpreedClient)
    → c.defunct ≡ false
    → OneTimer c.pending_timers c.deferred_close_timer
    → Released c (close c)
unfolding close
close-Released c live timer = ground arith

-- Closing twice is closing once.
pub close_idem : (c : SpreedClient) → close (close c) ≡ close c
unfolding close
close_idem c = ground arith
