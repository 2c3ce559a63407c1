-- ===== src/Prelude/Int.antt =====
-- Signed integers over the native numbers, and their patterns of bits in words of a width.
use Prim.Native.Nat.{ℕ, zero, suc, ◌+◌, ◌-◌, ◌/◌, ◌%◌}
use go_live_transcription.Prelude.Tests.{ltb, if◌then◌else◌}

-- `negsuc n` is -(n + 1).
pub data ℤ : Type 0 where
  pos : ℕ → ℤ
  negsuc : ℕ → ℤ

infixl 6 ◌+ℤ◌
abbrev pub ◌+ℤ◌ : ℤ → ℤ → ℤ
pos a +ℤ pos b = pos (a + b)
pos a +ℤ negsuc b = if ltb b a then pos (a - (b + 1)) else negsuc (b - a)
negsuc a +ℤ pos b = if ltb a b then pos (b - (a + 1)) else negsuc (a - b)
negsuc a +ℤ negsuc b = negsuc (a + b + 1)

-- The negation of a natural number.
abbrev pub neg : ℕ → ℤ
neg zero = pos 0
neg (suc n) = negsuc n

-- Go's division by a positive number, which rounds toward zero.
abbrev pub quot : ℤ → ℕ → ℤ
quot (pos a) d = pos (a / d)
quot (negsuc a) d = neg ((a + 1) / d)

-- The bits of an integer in a word of `size` values.
abbrev pub to_bits : ℕ → ℤ → ℕ
to_bits size (pos a) = a % size
to_bits size (negsuc a) = size - 1 - a % size

-- The signed integer that the bits stand for, in a word of `2 * half` values.
abbrev pub of_bits : ℕ → ℕ → ℤ
of_bits half bits = if ltb bits half then pos bits else negsuc (half + half - 1 - bits)
