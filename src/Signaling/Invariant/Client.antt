-- ===== src/Signaling/Invariant/Client.antt =====
-- The invariant of a client, and the operations of its own that keep it.
use go_live_transcription.Prelude.{
  ℕ, String, true, false, ◌≡◌, ◌⊎◌, Option, none, some, List, [], ◌∷◌, arith,
}
use go_live_transcription.GoMap.{has, lookup}
use go_live_transcription.Signaling.Messages.{SignalingMessage}
use go_live_transcription.Signaling.Client.{
  SpreedClient, send_message, cancel_deferred_close, start_deferred_close, start_if_no_target,
  close, fire_deferred_close, bye_message,
}
use go_live_transcription.Signaling.Invariant.Numbering.{Numbered, IsNumbered-snoc}

-- At most one timer is pending, and it is the one that the client knows.
abbrev pub OneTimer : List ℕ → Option ℕ → Type 0
OneTimer pending timer = (pending ≡ []) ⊎ ((t : ℕ) × (pending ≡ t ∷ []) × (timer ≡ some t))

-- For each Nextcloud session `nc`: the messages are numbered, a waiting session is not mapped,
-- at most one timer is pending, and a closed client has no connection and no monitor.
pub record Inv (nc : String) (c : SpreedClient) : Type 0 where
  pub numbered : Numbered c
  pub waits : has nc c.nc_sid_wait_stash ≡ true → lookup nc c.nc_sid_map ≡ none
  pub one_timer : OneTimer c.pending_timers c.deferred_close_timer
  pub closed : c.defunct ≡ true → (c.conn ≡ false) × (c.cancel ≡ false)

module _ (nc : String) (c : SpreedClient) (v : Inv nc c) where
  pub send-Inv : (m : SignalingMessage) → Inv nc (send_message m c)
  unfolding send_message
  send-Inv m = ground (arith, IsNumbered-snoc c.sent c.msg_id m v.numbered)

  pub cancel-Inv : Inv nc (cancel_deferred_close c)
  unfolding cancel_deferred_close
  cancel-Inv = ground arith

  pub start-Inv : Inv nc (start_deferred_close c)
  unfolding start_deferred_close
  start-Inv = ground arith

  pub start_if_no_target-Inv : Inv nc (start_if_no_target c)
  unfolding start_if_no_target
  start_if_no_target-Inv = ground arith

  pub close-Inv : Inv nc (close c)
  unfolding close
  close-Inv = ground (arith, IsNumbered-snoc c.sent c.msg_id bye_message v.numbered)

  pub fire-Inv : (t : ℕ) → Inv nc (fire_deferred_close t c)
  unfolding fire_deferred_close
  fire-Inv t = ground (arith, IsNumbered-snoc c.sent c.msg_id bye_message v.numbered)
