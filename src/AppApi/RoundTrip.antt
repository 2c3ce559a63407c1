-- ===== src/AppApi/RoundTrip.antt =====
-- What the header encodes is what the middleware decodes (`encodeAuth` and `decodeAuthHeader` of
-- internal/appapi).
use go_live_transcription.Prelude.{
  ℕ, ◌+◌, ◌*◌, ◌/◌, ◌%◌, ◌<◌, ◌≡◌, refl, ◌∙◌, Bool, true, false, not, ◌&&◌, ◌||◌, some, [], ◌∷◌,
  ◌++◌, ltb, nat_eq, keep_if, arith,
}
use go_live_transcription.AppApi.Base64.{
  Bytes, pad, char_of, value_of, encode_to_string, three_bytes, two_bytes, one_byte, decode_quads,
  decode_string,
}
use go_live_transcription.AppApi.Auth.{colon, split_colon, decode_auth_header, encode_auth}

-- The items of a list are bytes.
abbrev pub are_bytes : Bytes → Bool
are_bytes [] = true
are_bytes (b ∷ bs) = ltb b 256 && are_bytes bs

value_of-char_of : (v : ℕ) → v < 64 → value_of (char_of v) ≡ some v
unfolding value_of char_of
value_of-char_of v h = ground (arith, h)

-- A character of the alphabet is neither padding nor a line end.
char_of-plain :
    (v : ℕ)
    → v < 64
    → (nat_eq (char_of v) pad ≡ false)
      × ((not (nat_eq (char_of v) 10 || nat_eq (char_of v) 13)) ≡ true)
unfolding char_of
char_of-plain v h = ground (arith, h)

abbrev keep_plain : Bytes → Bytes
keep_plain = keep_if (λ c. not (nat_eq c 10 || nat_eq c 13))

four_values :
    (p q r s : ℕ) (rest : Bytes)
    → p < 64
    → q < 64
    → r < 64
    → s < 64
    → decode_quads (char_of p ∷ char_of q ∷ char_of r ∷ char_of s ∷ rest)
      ≡ three_bytes (some p) (some q) (some r) (some s) (decode_quads rest)
unfolding decode_quads
four_values p q r s rest hp hq hr hs =
    rw
      (
        (char_of-plain s hs).0,
        value_of-char_of p hp,
        value_of-char_of q hq,
        value_of-char_of r hr,
        value_of-char_of s hs,
      )
      refl

bytes_of_three :
    (a b c : ℕ) (rest : Bytes)
    → a < 256
    → b < 256
    → c < 256
    → three_bytes
        (some (a / 4))
        (some (a % 4 * 16 + b / 16))
        (some (b % 16 * 4 + c / 64))
        (some (c % 64))
        (some rest)
      ≡ some (a ∷ b ∷ c ∷ rest)
unfolding three_bytes
bytes_of_three a b c rest ha hb hc =
    let first : a / 4 * 4 + (a % 4 * 16 + b / 16) / 16 ≡ a = omega (arith, ha, hb) in
    let second : (a % 4 * 16 + b / 16) % 16 * 16 + (b % 16 * 4 + c / 64) / 4 ≡ b =
      omega (arith, hb, hc) in
    let third : (b % 16 * 4 + c / 64) % 4 * 64 + c % 64 ≡ c = omega (arith, hc) in
    rw (first, second, third) refl

keep-encoded :
    (xs : Bytes) → are_bytes xs ≡ true → keep_plain (encode_to_string xs) ≡ encode_to_string xs
unfolding encode_to_string
keep-encoded (a ∷ b ∷ c ∷ rest) h =
    let ha : a < 256 = ground (arith, h) in
    let hb : b < 256 = ground (arith, h) in
    let hc : c < 256 = ground (arith, h) in
    let p : a / 4 < 64 = omega (arith, ha) in
    let q : a % 4 * 16 + b / 16 < 64 = omega (arith, hb) in
    let r : b % 16 * 4 + c / 64 < 64 = omega (arith, hc) in
    let s : c % 64 < 64 = omega arith in
    rw
      (
        (char_of-plain (a / 4) p).1,
        (char_of-plain (a % 4 * 16 + b / 16) q).1,
        (char_of-plain (b % 16 * 4 + c / 64) r).1,
        (char_of-plain (c % 64) s).1,
        keep-encoded rest (ground (arith, h)),
      )
      refl
keep-encoded (a ∷ b ∷ []) h =
    let ha : a < 256 = ground (arith, h) in
    let hb : b < 256 = ground (arith, h) in
    let p : a / 4 < 64 = omega (arith, ha) in
    let q : a % 4 * 16 + b / 16 < 64 = omega (arith, hb) in
    let r : b % 16 * 4 < 64 = omega arith in
    rw
      (
        (char_of-plain (a / 4) p).1,
        (char_of-plain (a % 4 * 16 + b / 16) q).1,
        (char_of-plain (b % 16 * 4) r).1,
      )
      refl
keep-encoded (a ∷ []) h =
    let ha : a < 256 = ground (arith, h) in
    let p : a / 4 < 64 = omega (arith, ha) in
    let q : a % 4 * 16 < 64 = omega arith in
    rw ((char_of-plain (a / 4) p).1, (char_of-plain (a % 4 * 16) q).1) refl
keep-encoded [] h = refl

two_values :
    (p q r : ℕ)
    → p < 64
    → q < 64
    → r < 64
    → decode_quads (char_of p ∷ char_of q ∷ char_of r ∷ pad ∷ [])
      ≡ some ((p * 4 + q / 16) ∷ (q % 16 * 16 + r / 4) ∷ [])
unfolding decode_quads two_bytes
two_values p q r hp hq hr =
    rw ((char_of-plain r hr).0, value_of-char_of p hp, value_of-char_of q hq, value_of-char_of r hr)
      refl

one_value :
    (p q : ℕ)
    → p < 64
    → q < 64
    → decode_quads (char_of p ∷ char_of q ∷ pad ∷ pad ∷ []) ≡ some ((p * 4 + q / 16) ∷ [])
unfolding decode_quads one_byte
one_value p q hp hq = rw (value_of-char_of p hp, value_of-char_of q hq) refl

quads-encoded : (xs : Bytes) → are_bytes xs ≡ true → decode_quads (encode_to_string xs) ≡ some xs
unfolding encode_to_string decode_quads
quads-encoded (a ∷ b ∷ c ∷ rest) h =
    let ha : a < 256 = ground (arith, h) in
    let hb : b < 256 = ground (arith, h) in
    let hc : c < 256 = ground (arith, h) in
    four_values (a / 4) (a % 4 * 16 + b / 16) (b % 16 * 4 + c / 64) (c % 64) (encode_to_string rest)
      (omega (arith, ha)) (omega (arith, hb)) (omega (arith, hc)) (omega arith)
    ∙ rw (quads-encoded rest (ground (arith, h))) (bytes_of_three a b c rest ha hb hc)
quads-encoded (a ∷ b ∷ []) h =
    let ha : a < 256 = ground (arith, h) in
    let hb : b < 256 = ground (arith, h) in
    let first : a / 4 * 4 + (a % 4 * 16 + b / 16) / 16 ≡ a = omega (arith, ha, hb) in
    let second : (a % 4 * 16 + b / 16) % 16 * 16 + b % 16 * 4 / 4 ≡ b = omega (arith, hb) in
    two_values (a / 4) (a % 4 * 16 + b / 16) (b % 16 * 4) (omega (arith, ha)) (omega (arith, hb))
      (omega arith)
    ∙ rw (first, second) refl
quads-encoded (a ∷ []) h =
    let ha : a < 256 = ground (arith, h) in
    let first : a / 4 * 4 + a % 4 * 16 / 16 ≡ a = omega (arith, ha) in
    one_value (a / 4) (a % 4 * 16) (omega (arith, ha)) (omega arith) ∙ rw (first) refl
quads-encoded [] h = refl

decode-encode : (xs : Bytes) → are_bytes xs ≡ true → decode_string (encode_to_string xs) ≡ some xs
unfolding decode_string
decode-encode xs h = rw (keep-encoded xs h) (quads-encoded xs h)

-- No byte of a text is a colon.
abbrev pub has_no_colon : Bytes → Bool
has_no_colon [] = true
has_no_colon (b ∷ bs) = not (nat_eq b colon) && has_no_colon bs

split-colon :
    (front back : Bytes)
    → has_no_colon front ≡ true
    → split_colon (front ++ colon ∷ back) ≡ some (front, back)
unfolding split_colon
split-colon [] back h = refl
split-colon (b ∷ front) back h = ground (arith, h, split-colon front back)

bytes-append :
    (xs ys : Bytes) → are_bytes xs ≡ true → are_bytes ys ≡ true → are_bytes (xs ++ ys) ≡ true
bytes-append [] ys h k = k
bytes-append (x ∷ xs) ys h k = ground (arith, h, k, bytes-append xs ys)

-- The header that the app's client makes of a user's name without a colon and a secret, both of
-- bytes, gives the middleware that name and that secret back.
pub decode_auth_header-encode_auth :
    (username secret : Bytes)
    → are_bytes username ≡ true
    → are_bytes secret ≡ true
    → has_no_colon username ≡ true
    → decode_auth_header (encode_auth username secret) ≡ (username, secret)
unfolding decode_auth_header encode_auth
decode_auth_header-encode_auth username secret h k n =
    let text = username ++ colon ∷ secret in
    rw
      (
        decode-encode text (bytes-append username (colon ∷ secret) h (ground (arith, k))),
        split-colon username secret n,
      )
      refl
