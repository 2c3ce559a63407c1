-- ===== src/AppApi/Base64.antt =====
-- The standard encoding of Go's encoding/base64, which internal/appapi uses. A text is the list of
-- its bytes.
use go_live_transcription.Prelude.{
  ℕ, ◌+◌, ◌-◌, ◌*◌, ◌/◌, ◌%◌, Bool, true, false, not, ◌&&◌, ◌||◌, Option, none, some, List, [], ◌∷◌,
  if◌then◌else◌, ltb, leb, nat_eq, keep_if,
}

abbrev pub Bytes : Type 0
Bytes = List ℕ

-- The padding character `=`.
abbrev pub pad : ℕ
pad = 61

-- The character of a value of six bits.
unfoldable pub char_of : ℕ → ℕ
char_of v =
    if ltb v 26
    then v + 65
    else (if ltb v 52
        then v + 71
        else (if ltb v 62 then v - 4 else (if nat_eq v 62 then 43 else 47)))

-- The value of a character, if it is one of the alphabet.
unfoldable pub value_of : ℕ → Option ℕ
value_of c =
    if leb 65 c && leb c 90
    then some (c - 65)
    else (if leb 97 c && leb c 122
        then some (c - 71)
        else (if leb 48 c && leb c 57
            then some (c + 4)
            else (if nat_eq c 43 then some 62 else (if nat_eq c 47 then some 63 else none))))

-- `EncodeToString`
unfoldable pub encode_to_string : Bytes → Bytes
encode_to_string (a ∷ b ∷ c ∷ rest) =
    char_of (a / 4)
    ∷ char_of (a % 4 * 16 + b / 16)
    ∷ char_of (b % 16 * 4 + c / 64)
    ∷ char_of (c % 64)
    ∷ encode_to_string rest
encode_to_string (a ∷ b ∷ []) =
    char_of (a / 4) ∷ char_of (a % 4 * 16 + b / 16) ∷ char_of (b % 16 * 4) ∷ pad ∷ []
encode_to_string (a ∷ []) = char_of (a / 4) ∷ char_of (a % 4 * 16) ∷ pad ∷ pad ∷ []
encode_to_string [] = []

-- The bytes of four, three and two values; bits that are left over are not looked at.
unfoldable pub three_bytes : Option ℕ → Option ℕ → Option ℕ → Option ℕ → Option Bytes → Option Bytes
three_bytes (some p) (some q) (some r) (some s) (some rest) =
    some ((p * 4 + q / 16) ∷ (q % 16 * 16 + r / 4) ∷ (r % 4 * 64 + s) ∷ rest)
three_bytes _ _ _ _ _ = none

unfoldable pub two_bytes : Option ℕ → Option ℕ → Option ℕ → Option Bytes
two_bytes (some p) (some q) (some r) = some ((p * 4 + q / 16) ∷ (q % 16 * 16 + r / 4) ∷ [])
two_bytes _ _ _ = none

unfoldable pub one_byte : Option ℕ → Option ℕ → Option Bytes
one_byte (some p) (some q) = some ((p * 4 + q / 16) ∷ [])
one_byte _ _ = none

abbrev pub is_nil : Bytes → Bool
is_nil [] = true
is_nil (b ∷ bs) = false

-- Padding stands only at the end of the text.
unfoldable pub decode_quads : Bytes → Option Bytes
unfolding three_bytes two_bytes one_byte
decode_quads (p ∷ q ∷ r ∷ s ∷ rest) =
    let behind = decode_quads rest in
    if nat_eq s pad
    then (if is_nil rest
        then (if nat_eq r pad
            then one_byte (value_of p) (value_of q)
            else two_bytes (value_of p) (value_of q) (value_of r))
        else none)
    else three_bytes (value_of p) (value_of q) (value_of r) (value_of s) behind
decode_quads [] = some []
decode_quads _ = none

-- `DecodeString`, which skips line ends.
unfoldable pub decode_string : Bytes → Option Bytes
unfolding decode_quads
decode_string text = decode_quads (keep_if (λ c. not (nat_eq c 10 || nat_eq c 13)) text)
