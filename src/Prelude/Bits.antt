-- ===== src/Prelude/Bits.antt =====
-- The bits of a machine word, and its operations on 32 bits.
use Prim.Native.Nat.{
  ℕ, zero, suc, ◌+◌, ◌-◌, ◌*◌, ◌/◌, ◌%◌, ◌^◌, ◌≤◌, ◌<◌, min, max, bit_and, bit_or, digits,
  bit_and-bitwise, bit_or-bitwise,
}
use mathlib.Core.Path.{◌≡◌, refl, sym, ap, ◌∙◌}
use native.Mathlib.Omega.{arith}

-- Bit `i` of a number.
unfoldable pub bit_at : ℕ → ℕ → ℕ
bit_at x zero = x % 2
bit_at x (suc i) = bit_at (x / 2) i

-- `!x` on a `u32`
abbrev pub not_u32 : ℕ → ℕ
not_u32 x = 0xffff_ffff - x

-- `x << k` on a `u32`, for `k` below 32
abbrev pub shl_u32 : ℕ → ℕ → ℕ
shl_u32 x k = x * 2 ^ k % 2 ^ 32

-- The digits do not depend on the fuel, if it is at least the first number.
enough_fuel :
    (low : ℕ → ℕ) (op : ℕ → ℕ → ℕ) (n m a b : ℕ)
    → a ≤ n
    → a ≤ m
    → digits low op n a b ≡ digits low op m a b
enough_fuel low op zero zero zero b p q = refl
enough_fuel low op zero m (suc a) b p q = absurd (omega arith)
enough_fuel low op zero (suc m) zero b p q = refl
enough_fuel low op (suc n) zero zero b p q = refl
enough_fuel low op (suc n) zero (suc a) b p q = absurd (omega arith)
enough_fuel low op (suc n) (suc m) zero b p q = refl
enough_fuel low op (suc n) (suc m) (suc a) b p q =
    ap (λ rest. rest * 2 + op (suc a % 2) (b % 2))
      (enough_fuel low op n m (suc a / 2) (b / 2) (omega arith) (omega arith))

-- The lowest digit, and the others.
bit_and_step : (a b : ℕ) → bit_and a b ≡ bit_and (a / 2) (b / 2) * 2 + min (a % 2) (b % 2)
bit_and_step zero b = omega (arith, bit_and-bitwise 0 b, bit_and-bitwise 0 (b / 2))
bit_and_step (suc a) b = omega (
  arith,
  bit_and-bitwise (suc a) b,
  bit_and-bitwise (suc a / 2) (b / 2),
  enough_fuel (λ b. zero) min a (suc a / 2) (suc a / 2) (b / 2) (omega arith) (omega arith),
)

bit_or_step : (a b : ℕ) → bit_or a b ≡ bit_or (a / 2) (b / 2) * 2 + max (a % 2) (b % 2)
bit_or_step zero b = omega (arith, bit_or-bitwise 0 b, bit_or-bitwise 0 (b / 2))
bit_or_step (suc a) b = omega (
  arith,
  bit_or-bitwise (suc a) b,
  bit_or-bitwise (suc a / 2) (b / 2),
  enough_fuel (λ b. b) max a (suc a / 2) (suc a / 2) (b / 2) (omega arith) (omega arith),
)

bit_and_zero : (n a : ℕ) → a ≤ n → bit_and a 0 ≡ 0
bit_and_zero zero zero h = refl
bit_and_zero zero (suc a) h = absurd (omega (arith, h))
bit_and_zero (suc n) a h = omega (arith, bit_and_step a 0, bit_and_zero n (a / 2) (omega arith))

-- `x & (1 << i)` is bit `i` of `x`, where it stands.
pub bit_and-pow : (a i : ℕ) → bit_and a (2 ^ i) ≡ bit_at a i * 2 ^ i
unfolding bit_at
bit_and-pow a zero = omega (arith, bit_and_step a 1, bit_and_zero (a / 2) (a / 2) (omega arith))
bit_and-pow a (suc i) =
    let doubled : 2 ^ suc i ≡ 2 ^ i * 2 = omega arith in
    let half : 2 ^ suc i / 2 ≡ 2 ^ i = omega (arith, doubled) in
    let rest : bit_and (a / 2) (2 ^ suc i / 2) ≡ bit_at (a / 2) i * 2 ^ i =
      ap (bit_and (a / 2)) half ∙ bit_and-pow (a / 2) i in
    let even : 2 ^ suc i % 2 ≡ 0 = omega (arith, doubled) in
    let bit = bit_at (a / 2) i in
    let regroup : bit * 2 ^ i * 2 + min (a % 2) 0 ≡ bit * (2 ^ i * 2) = grind arith in
    bit_and_step a (2 ^ suc i) ∙ rw (rest, even) (regroup ∙ ap (λ n. bit * n) (sym doubled))

pub bit_at-lt : (a i : ℕ) → bit_at a i < 2
unfolding bit_at
bit_at-lt a zero = omega arith
bit_at-lt a (suc i) = bit_at-lt (a / 2) i

-- `&` and `|` act bit by bit.
pub bit_at-bit_and : (a b i : ℕ) → bit_at (bit_and a b) i ≡ min (bit_at a i) (bit_at b i)
unfolding bit_at
bit_at-bit_and a b zero = omega (arith, bit_and_step a b)
bit_at-bit_and a b (suc i) =
    let halved : bit_and a b / 2 ≡ bit_and (a / 2) (b / 2) = omega (arith, bit_and_step a b) in
    ap (λ x. bit_at x i) halved ∙ bit_at-bit_and (a / 2) (b / 2) i

pub bit_at-bit_or : (a b i : ℕ) → bit_at (bit_or a b) i ≡ max (bit_at a i) (bit_at b i)
unfolding bit_at
bit_at-bit_or a b zero = omega (arith, bit_or_step a b)
bit_at-bit_or a b (suc i) =
    let halved : bit_or a b / 2 ≡ bit_or (a / 2) (b / 2) = omega (arith, bit_or_step a b) in
    ap (λ x. bit_at x i) halved ∙ bit_at-bit_or (a / 2) (b / 2) i
