-- ===== src/Vosk/Samples.antt =====
-- The samples are neither lost nor out of range (internal/vosk/worker.go).
use go_live_transcription.Prelude.{
  ℕ, zero, suc, ◌+◌, ◌*◌, ◌/◌, ◌%◌, ◌≤◌, ◌<◌, ◌≡◌, refl, Bool, true, ◌&&◌, List, [], ◌∷◌, ◌++◌,
  length, arith, ltb, ap, ◌∙◌,
}
use go_live_transcription.Prelude.Int.{ℤ, pos, negsuc, ◌+ℤ◌, quot, to_bits, of_bits, neg}
use go_live_transcription.Vosk.Audio.{
  int16, int32, half_16, size_16, put_uint16, int16_to_bytes, mean_of, downsample,
}

-- The range of an int16.
abbrev pub in_range : ℤ → Bool
in_range (pos a) = ltb a half_16
in_range (negsuc a) = ltb a half_16

abbrev pub all_in_range : List ℤ → Bool
all_in_range [] = true
all_in_range (s ∷ samples) = in_range s && all_in_range samples

-- The samples that bytes stand for, read in pairs.
abbrev pub bytes_to_int16 : List ℕ → List ℤ
bytes_to_int16 (low ∷ high ∷ bytes) = of_bits half_16 (low + 256 * high) ∷ bytes_to_int16 bytes
bytes_to_int16 (low ∷ []) = []
bytes_to_int16 [] = []

sample_read : (s : ℤ) → in_range s ≡ true → of_bits half_16 (to_bits size_16 s) ≡ s
sample_read (pos a) h = ground (arith, h)
sample_read (negsuc a) h = ground (arith, h)

bytes_split : (n : ℕ) → n < size_16 → n % 256 + 256 * (n / 256 % 256) ≡ n
bytes_split n h = omega (arith, h)

bits_small : (s : ℤ) → in_range s ≡ true → to_bits size_16 s < size_16
bits_small (pos a) h = ground (arith, h)
bits_small (negsuc a) h = ground (arith, h)

put_uint16-read :
    (s : ℤ) (bytes : List ℕ)
    → in_range s ≡ true
    → bytes_to_int16 (put_uint16 s ++ bytes) ≡ s ∷ bytes_to_int16 bytes
unfolding put_uint16
put_uint16-read s bytes h =
    ap (λ x. x ∷ bytes_to_int16 bytes)
      (ap (of_bits half_16) (bytes_split (to_bits size_16 s) (bits_small s h)) ∙ sample_read s h)

bytes_roundtrip :
    (samples : List ℤ)
    → all_in_range samples ≡ true
    → bytes_to_int16 (int16_to_bytes samples) ≡ samples
unfolding int16_to_bytes
bytes_roundtrip [] h = refl
bytes_roundtrip (s ∷ samples) h =
    put_uint16-read s (int16_to_bytes samples) (ground (arith, h))
    ∙ ap (λ xs. s ∷ xs) (bytes_roundtrip samples (ground (arith, h)))

bytes-length : (samples : List ℤ) → length (int16_to_bytes samples) ≡ 2 * length samples
unfolding int16_to_bytes put_uint16
bytes-length [] = refl
bytes-length (s ∷ samples) = ground (arith, bytes-length samples)

-- Samples of 16 bits, read back from the bytes that are fed to a recognizer, are the samples, and
-- there are two bytes for each.
pub int16_to_bytes-roundtrip :
    (samples : List ℤ)
    → all_in_range samples ≡ true
    → (bytes_to_int16 (int16_to_bytes samples) ≡ samples)
      × (length (int16_to_bytes samples) ≡ 2 * length samples)
int16_to_bytes-roundtrip samples h = (bytes_roundtrip samples h, bytes-length samples)

-- An integer within a third of the range of an int32.
abbrev small : ℕ → ℤ → Bool
small n (pos a) = ltb a n
small n (negsuc a) = ltb a n

int32-small : (s : ℤ) → small 98_304 s ≡ true → int32 s ≡ s
int32-small (pos a) h = ground (arith, h)
int32-small (negsuc a) h = ground (arith, h)

int16-small : (s : ℤ) → in_range s ≡ true → int16 s ≡ s
int16-small s h = sample_read s h

add_small :
    (m n : ℕ) (a b : ℤ) → small m a ≡ true → small n b ≡ true → small (m + n) (a +ℤ b) ≡ true
add_small m n (pos a) (pos b) h k = ground (arith, h, k)
add_small m n (pos a) (negsuc b) h k = ground (arith, h, k)
add_small m n (negsuc a) (pos b) h k = ground (arith, h, k)
add_small m n (negsuc a) (negsuc b) h k = ground (arith, h, k)

neg-small : (n : ℕ) → n ≤ half_16 → in_range (neg n) ≡ true
neg-small zero h = refl
neg-small (suc n) h = ground (arith, h)

quot-small : (s : ℤ) → small 98_304 s ≡ true → in_range (quot s 3) ≡ true
quot-small (pos a) h = ground (arith, h)
quot-small (negsuc a) h = neg-small ((a + 1) / 3) (ground (arith, h))

small_more : (m n : ℕ) (s : ℤ) → m ≤ n → small m s ≡ true → small n s ≡ true
small_more m n (pos a) h k = ground (arith, h, k)
small_more m n (negsuc a) h k = ground (arith, h, k)

small_of_range : (s : ℤ) → in_range s ≡ true → small 32_768 s ≡ true
small_of_range (pos a) h = h
small_of_range (negsuc a) h = h

wide : (s : ℤ) → in_range s ≡ true → int32 s ≡ s
wide s h = int32-small s (small_more 32_768 98_304 s (omega arith) (small_of_range s h))

mean_of-exact :
    (a b c : ℤ)
    → in_range a ≡ true
    → in_range b ≡ true
    → in_range c ≡ true
    → (mean_of a b c ≡ quot ((a +ℤ b) +ℤ c) 3) × (in_range (quot ((a +ℤ b) +ℤ c) 3) ≡ true)
unfolding mean_of
mean_of-exact a b c h k l =
    let two = add_small 32_768 32_768 a b (small_of_range a h) (small_of_range b k) in
    let three = add_small 65_536 32_768 (a +ℤ b) c two (small_of_range c l) in
    let range = quot-small ((a +ℤ b) +ℤ c) three in
    let sum = int32-small (a +ℤ b) (small_more 65_536 98_304 (a +ℤ b) (omega arith) two) in
    (
      rw (wide a h, wide b k, wide c l, sum, int32-small ((a +ℤ b) +ℤ c) three)
          (int16-small (quot ((a +ℤ b) +ℤ c) 3) range),
      range,
    )

-- The means of the samples three by three, with exact sums.
abbrev pub means : List ℤ → List ℤ
means (a ∷ b ∷ c ∷ rest) = quot ((a +ℤ b) +ℤ c) 3 ∷ means rest
means (a ∷ b ∷ []) = []
means (a ∷ []) = []
means [] = []

downsample-means :
    (samples : List ℤ) → all_in_range samples ≡ true → downsample samples ≡ means samples
unfolding downsample
downsample-means (a ∷ b ∷ c ∷ rest) h =
    let here = mean_of-exact a b c (ground (arith, h)) (ground (arith, h)) (ground (arith, h)) in
    ap (λ x. x ∷ downsample rest) here.0
    ∙ ap (λ xs. quot ((a +ℤ b) +ℤ c) 3 ∷ xs) (downsample-means rest (ground (arith, h)))
downsample-means (a ∷ b ∷ []) h = refl
downsample-means (a ∷ []) h = refl
downsample-means [] h = refl

means-bounds :
    (samples : List ℤ)
    → all_in_range samples ≡ true
    → (length (means samples) ≡ length samples / 3) × (all_in_range (means samples) ≡ true)
means-bounds (a ∷ b ∷ c ∷ rest) h =
    let here = mean_of-exact a b c (ground (arith, h)) (ground (arith, h)) (ground (arith, h)) in
    ground (arith, here, means-bounds rest (ground (arith, h)))
means-bounds (a ∷ b ∷ []) h = (omega arith, refl)
means-bounds (a ∷ []) h = (omega arith, refl)
means-bounds [] h = (omega arith, refl)

-- For samples of 16 bits, the sums and the conversions of the downsampling never wrap round: it
-- gives the means of the samples three by three, as many as a third of the samples, rounded down,
-- and each within 16 bits again.
pub downsample-exact :
    (samples : List ℤ)
    → all_in_range samples ≡ true
    → (downsample samples ≡ means samples)
      × (length (downsample samples) ≡ length samples / 3)
      × (all_in_range (downsample samples) ≡ true)
downsample-exact samples h =
    let e = downsample-means samples h in
    let (bound, range) = means-bounds samples h in
    (e, ap length e ∙ bound, ap all_in_range e ∙ range)
