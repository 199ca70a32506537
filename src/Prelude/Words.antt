-- ===== src/Prelude/Words.antt =====
-- Facts on the digits of machine words.
use Prim.Native.Nat.{
  ℕ, zero, suc, ◌+◌, ◌/◌, ◌%◌, ◌^◌, ◌≤◌, ◌<◌, min, bit_and, bit_or, digits, bit_and-bitwise,
}
use mathlib.Core.Path.{◌≡◌, refl}
use mathlib.Core.Bool.{true}
use raspberry_pi_i2c_target.Prelude.Tests.{ltb, ltb→lt, holds_below, holds_below_at}
use native.Mathlib.Omega.{arith}

and_digits-le : (n a b : ℕ) → digits (λ b. zero) min n a b ≤ b
and_digits-le zero a b = omega arith
and_digits-le (suc n) zero b = omega arith
and_digits-le (suc n) (suc a) b = omega (arith, and_digits-le n (suc a / 2) (b / 2))

-- A mask bounds what it lets through.
pub bit_and-le : (a b : ℕ) → bit_and a b ≤ b
bit_and-le a b = omega (arith, bit_and-bitwise a b, and_digits-le a a b)

-- Setting one of the eight bits of a byte gives a byte.
or_table : holds_below 256 (λ b. holds_below 8 (λ k. ltb (bit_or b (2 ^ k)) 256)) ≡ true
unfolding holds_below
or_table = refl

pub bit_or-lt : (b k : ℕ) → b < 256 → k < 8 → bit_or b (2 ^ k) < 256
bit_or-lt b k hb hk = ltb→lt _ 256 (
    holds_below_at 8 (λ k. ltb (bit_or b (2 ^ k)) 256) k
      (holds_below_at 256 (λ b. holds_below 8 (λ k. ltb (bit_or b (2 ^ k)) 256)) b or_table hb) hk)

-- `+=` on a `u64`
abbrev pub add_u64 : ℕ → ℕ → ℕ
add_u64 a b = (a + b) % 2 ^ 64
