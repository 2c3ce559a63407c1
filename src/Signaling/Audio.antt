-- ===== src/Signaling/Audio.antt =====
-- The reader of a participant's audio track (`readAudioTrack` of internal/signaling/client.go). The
-- track, the RTP packets and the Opus decoder are outside: what a round of the loop meets is an
-- argument.
use go_live_transcription.Prelude.{Bool, true, false, String, none, some, List, [], ◌∷◌}
use go_live_transcription.Prelude.Int.{ℤ}
use go_live_transcription.Signaling.Client.{SpreedClient}
use go_live_transcription.Signaling.Offers.{push_audio}

-- A round: the context is cancelled, the read fails or gives nothing, the bytes are no packet, the
-- packet is empty, it does not decode, or it decodes to samples.
pub data TrackRead : Type 0 where
  cancelled read_fails nothing_read no_packet no_payload not_decoded : TrackRead
  decoded : List ℤ → TrackRead

-- One round: the client, and whether the reader returns.
unfoldable pub track_round : String → TrackRead → SpreedClient → SpreedClient × Bool
track_round sid cancelled c = (c, true)
track_round sid read_fails c = (c, true)
track_round sid nothing_read c = (c, false)
track_round sid no_packet c = (c, false)
track_round sid no_payload c = (c, false)
track_round sid not_decoded c = (push_audio sid none c, false)
track_round sid (decoded samples) c = (push_audio sid (some samples) c, false)

-- The loop goes on with what the rounds behind it meet, unless the reader returns.
abbrev pub unless_returned :
    SpreedClient × Bool → (SpreedClient → SpreedClient × Bool) → SpreedClient × Bool
unless_returned (c, true) rest = (c, true)
unless_returned (c, false) rest = rest c

unfoldable pub read_loop : String → List TrackRead → SpreedClient → SpreedClient × Bool
unfolding track_round
read_loop sid [] c = (c, false)
read_loop sid (r ∷ rs) c = unless_returned (track_round sid r c) (read_loop sid rs)

-- The reader, by whether a decoder can be made.
unfoldable pub read_audio_track :
    Bool → String → List TrackRead → SpreedClient → SpreedClient × Bool
unfolding read_loop
read_audio_track false sid rs c = (c, true)
read_audio_track true sid rs c = read_loop sid rs c
