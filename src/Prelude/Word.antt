-- ===== src/Prelude/Word.antt =====
-- Go's fixed-width integers as bit patterns, numbers below 2 ^ w: atomic.Int32 and atomic.Int64
-- add modulo 2 ^ w, and a signed comparison reads both patterns in two's complement.
use Prim.Native.Nat.{ℕ, ◌+◌, ◌-◌, ◌%◌, ◌<◌}
use mathlib.Core.Path.{◌≡◌}
use mathlib.Core.Bool.{Bool, not}
use native.Mathlib.Omega.{arith}
use quic_flow.Prelude.Tests.{leb}

abbrev pub i32_mod : ℕ
i32_mod = 4294967296

abbrev pub i64_mod : ℕ
i64_mod = 18446744073709551616

-- The least pattern that stands for a negative number.
abbrev pub i32_neg : ℕ
i32_neg = 2147483648

abbrev pub i64_neg : ℕ
i64_neg = 9223372036854775808

abbrev pub add32 : ℕ → ℕ → ℕ
add32 a b = (a + b) % i32_mod

abbrev pub add64 : ℕ → ℕ → ℕ
add64 a b = (a + b) % i64_mod

-- Add(-1).
abbrev pub dec64 : ℕ → ℕ
dec64 a = (a + (i64_mod - 1)) % i64_mod

-- a ≤ b as signed numbers: the sign bit flipped orders the patterns.
unfoldable pub i32_leb : ℕ → ℕ → Bool
i32_leb a b = leb ((a + i32_neg) % i32_mod) ((b + i32_neg) % i32_mod)

unfoldable pub i64_leb : ℕ → ℕ → Bool
i64_leb a b = leb ((a + i64_neg) % i64_mod) ((b + i64_neg) % i64_mod)

-- On numbers that are not negative it is the usual order.
pub i32_leb_lem : (a b : ℕ) → a < i32_neg → b < i32_neg → i32_leb a b ≡ leb a b
unfolding i32_leb
i32_leb_lem a b h k = ground arith

pub i64_leb_lem : (a b : ℕ) → a < i64_neg → b < i64_neg → i64_leb a b ≡ leb a b
unfolding i64_leb
i64_leb_lem a b h k = ground arith

abbrev pub i64_ltb : ℕ → ℕ → Bool
i64_ltb a b = not (i64_leb b a)
