-- ===== src/Vosk/Audio.antt =====
-- The samples on their way to the recognizers (internal/vosk/worker.go).
use go_live_transcription.Prelude.{ℕ, ◌/◌, ◌%◌, List, [], ◌∷◌, ◌++◌}
use go_live_transcription.Prelude.Int.{ℤ, ◌+ℤ◌, quot, to_bits, of_bits}

abbrev pub half_16 : ℕ
half_16 = 32_768

abbrev pub size_16 : ℕ
size_16 = 65_536

abbrev pub half_32 : ℕ
half_32 = 2_147_483_648

abbrev pub size_32 : ℕ
size_32 = 4_294_967_296

-- The conversions `int16` and `int32`.
abbrev pub int16 : ℤ → ℤ
int16 z = of_bits half_16 (to_bits size_16 z)

abbrev pub int32 : ℤ → ℤ
int32 z = of_bits half_32 (to_bits size_32 z)

-- The bytes of `PutUint16` in little-endian order.
unfoldable pub put_uint16 : ℤ → List ℕ
put_uint16 s = let bits = to_bits size_16 s in (bits % 256) ∷ (bits / 256 % 256) ∷ []

unfoldable pub int16_to_bytes : List ℤ → List ℕ
unfolding put_uint16
int16_to_bytes [] = []
int16_to_bytes (s ∷ samples) = put_uint16 s ++ int16_to_bytes samples

-- One sample of the result, from three.
unfoldable pub mean_of : ℤ → ℤ → ℤ → ℤ
mean_of a b c = int16 (quot (int32 (int32 (int32 a +ℤ int32 b) +ℤ int32 c)) 3)

-- `downsample48to16`: the loop takes three samples a round and leaves a rest of less than three.
unfoldable pub downsample : List ℤ → List ℤ
unfolding mean_of
downsample (a ∷ b ∷ c ∷ rest) = mean_of a b c ∷ downsample rest
downsample (a ∷ b ∷ []) = []
downsample (a ∷ []) = []
downsample [] = []
