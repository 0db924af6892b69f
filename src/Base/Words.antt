-- ===== src/Base/Words.antt =====
-- Machine words as native numbers. An `i64` is its two's-complement bit pattern, a number below
-- 2 ^ 64; arithmetic wraps, as in the release build, which has no overflow checks.
use Prim.Native.Nat.{ℕ, ◌+◌, ◌-◌, ◌*◌, ◌%◌, ◌^◌}
use mathlib.Core.Bool.{Bool}
use gis.Base.Tests.{ltb}

abbrev pub add64 : ℕ → ℕ → ℕ
add64 a b = (a + b) % 2 ^ 64

abbrev pub sub64 : ℕ → ℕ → ℕ
sub64 a b = (a + 2 ^ 64 - b) % 2 ^ 64

abbrev pub mul64 : ℕ → ℕ → ℕ
mul64 a b = a * b % 2 ^ 64

-- The place of a pattern in the order of the signed numbers that the patterns stand for.
abbrev pub signed_rank : ℕ → ℕ
signed_rank x = (x + 2 ^ 63) % 2 ^ 64

abbrev pub lt_i64 : ℕ → ℕ → Bool
lt_i64 a b = ltb (signed_rank a) (signed_rank b)

-- `i64::MAX`, and the numbers that are the same signed and unsigned.
abbrev pub i64_max : ℕ
i64_max = 2 ^ 63 - 1
