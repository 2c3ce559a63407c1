-- ===== src/Signaling/Silence.antt =====
-- A closed client stays silent (internal/signaling/client.go).
use go_live_transcription.Prelude.{true, false, ◌≡◌}
use go_live_transcription.GoMap.{GoMap}
use go_live_transcription.Signaling.Client.{SpreedClient}

-- A closed client, and what stays of it.
pub record IsClosed (c : SpreedClient) : Type 0 where
  pub dead : c.defunct ≡ true
  pub unplugged : c.conn ≡ false
  pub unwatched : c.cancel ≡ false

pub record Silent (c d : SpreedClient) : Type 0 where
  pub still : IsClosed d
  pub sent : d.sent ≡ c.sent
  pub callbacks : d.callbacks ≡ c.callbacks
