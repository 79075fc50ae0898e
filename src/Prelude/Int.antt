-- ===== src/Prelude/Int.antt =====
-- Signed integers over the native numbers, under the library's names (its ℤ stands on the unary ℕ),
-- and the int32 words of Go's atomics as bit patterns.
use Prim.Native.Nat.{ℕ, suc, ◌+◌, ◌-◌, ◌*◌, ◌/◌, ◌%◌, ◌^◌}
use mathlib.Core.Bool.{Bool}
use riskforge.Prelude.Tests.{ltb, leb, if◌then◌else◌}

-- `negsuc n` is -(n + 1).
pub data ℤ : Type 0 where
  pos : ℕ → ℤ
  negsuc : ℕ → ℤ

abbrev pub pos_part : ℤ → ℕ
pos_part (pos n) = n
pos_part (negsuc n) = 0

abbrev pub neg_part : ℤ → ℕ
neg_part (pos n) = 0
neg_part (negsuc n) = suc n

-- a - b, as an integer.
abbrev pub sub_ℕ : ℕ → ℕ → ℤ
sub_ℕ a b = if leb b a then pos (a - b) else negsuc (b - a - 1)

abbrev pub add_ℤ : ℤ → ℤ → ℤ
add_ℤ a b = sub_ℕ (pos_part a + pos_part b) (neg_part a + neg_part b)

abbrev pub ltb_ℤ : ℤ → ℤ → Bool
ltb_ℤ a b = ltb (pos_part a + neg_part b) (pos_part b + neg_part a)

abbrev pub leb_ℤ : ℤ → ℤ → Bool
leb_ℤ a b = leb (pos_part a + neg_part b) (pos_part b + neg_part a)

-- The conversion `int32(x)` of an int, as the bit pattern of the result.
abbrev pub to_i32 : ℤ → ℕ
to_i32 (pos n) = n % 2 ^ 32
to_i32 (negsuc n) = 2 ^ 32 - 1 - n % 2 ^ 32

-- `Add(1)` on an atomic int32.
abbrev pub suc_i32 : ℕ → ℕ
suc_i32 w = (w + 1) % 2 ^ 32

-- `a >= b` on int32 values: the patterns are compared after the sign bit is flipped.
abbrev pub geb_i32 : ℕ → ℕ → Bool
geb_i32 a b = leb ((b + 2 ^ 31) % 2 ^ 32) ((a + 2 ^ 31) % 2 ^ 32)

-- Division by a positive number, truncated towards zero.
abbrev pub quot_ℤ : ℤ → ℕ → ℤ
quot_ℤ (pos n) d = pos (n / d)
quot_ℤ (negsuc n) d = sub_ℕ 0 ((n + 1) / d)

-- `time.Duration.Milliseconds`.
abbrev pub milliseconds : ℤ → ℤ
milliseconds d = quot_ℤ d 1_000_000

-- A number of milliseconds as a duration.
abbrev pub times_million : ℤ → ℤ
times_million (pos n) = pos (n * 1_000_000)
times_million (negsuc n) = negsuc (n * 1_000_000 + 999_999)
