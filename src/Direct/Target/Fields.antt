-- ===== src/Direct/Target/Fields.antt =====
-- src/bin/target.rs: what `set_gpio_function` and `set_bcm2711_pull_none` make of a register, field
-- by field.
use raspberry_pi_i2c_target.Prelude.{
  ℕ, zero, suc, ◌+◌, ◌*◌, ◌/◌, ◌%◌, ◌≤◌, ◌<◌, ◌≡◌, refl, arith, ◌==◌, true, bit_and, bit_at,
  not_u32, shl_u32, bit_at-bit_and, bit_at-bit_or, holds_below, holds_below_at, ==_iff,
  if◌then◌else◌,
}
use raspberry_pi_i2c_target.Direct.Target.{with_function, without_pull}

-- The function of the pin in field `field` of a register, three bits.
abbrev pub function_field : (register field : ℕ) → ℕ
function_field register field =
    bit_at register (field * 3)
    + 2 * bit_at register (field * 3 + 1)
    + 4 * bit_at register (field * 3 + 2)

-- The pull in field `field` of a register, two bits.
abbrev pub pull_field : (register field : ℕ) → ℕ
pull_field register field = bit_at register (field * 2) + 2 * bit_at register (field * 2 + 1)

bit_at-le : (x i : ℕ) → bit_at x i ≤ 1
unfolding bit_at
bit_at-le x zero = omega arith
bit_at-le x (suc i) = bit_at-le (x / 2) i

function_mask_table :
    holds_below 10 (λ j.
      holds_below 30 (λ i. bit_at (not_u32 (shl_u32 7 (j * 3))) i == (if i / 3 == j then 0 else 1)))
    ≡ true
unfolding holds_below bit_at
function_mask_table = refl

function_table :
    holds_below 8 (λ f. holds_below 10 (λ j.
      holds_below 30
        (λ i. bit_at (shl_u32 f (j * 3)) i == (if i / 3 == j then bit_at f (i % 3) else 0))))
    ≡ true
unfolding holds_below bit_at
function_table = refl

pull_mask_table :
    holds_below 16 (λ j.
      holds_below 32 (λ i. bit_at (not_u32 (shl_u32 3 (j * 2))) i == (if i / 2 == j then 0 else 1)))
    ≡ true
unfolding holds_below bit_at
pull_mask_table = refl

function_mask :
    (j i : ℕ)
    → j < 10
    → i < 30
    → bit_at (not_u32 (shl_u32 7 (j * 3))) i ≡ (if i / 3 == j then 0 else 1)
function_mask j i hj hi = (==_iff _ _).0 (
    holds_below_at 30 (λ i. bit_at (not_u32 (shl_u32 7 (j * 3))) i == (if i / 3 == j then 0 else 1))
      i
      (holds_below_at 10
        (λ j.
          holds_below 30
            (λ i. bit_at (not_u32 (shl_u32 7 (j * 3))) i == (if i / 3 == j then 0 else 1)))
        j function_mask_table hj)
      hi)

function_value :
    (f j i : ℕ)
    → f < 8
    → j < 10
    → i < 30
    → bit_at (shl_u32 f (j * 3)) i ≡ (if i / 3 == j then bit_at f (i % 3) else 0)
function_value f j i hf hj hi =
    let test =
      λ (f j i : ℕ). bit_at (shl_u32 f (j * 3)) i == (if i / 3 == j then bit_at f (i % 3) else 0) in
    (==_iff _ _).0 (
      holds_below_at 30 (test f j) i
        (holds_below_at 10 (λ j. holds_below 30 (test f j)) j
          (holds_below_at 8 (λ f. holds_below 10 (λ j. holds_below 30 (test f j))) f function_table
            hf)
          hj)
        hi)

with_function-bit :
    (old pin f i : ℕ)
    → f < 8
    → i < 30
    → bit_at (with_function old pin f) i
      ≡ (if i / 3 == pin % 10 then bit_at f (i % 3) else bit_at old i)
unfolding with_function
with_function-bit old pin f i hf hi = ground (
  arith,
  bit_at-bit_or (bit_and old (not_u32 (shl_u32 7 (pin % 10 * 3)))) (shl_u32 f (pin % 10 * 3)) i,
  bit_at-bit_and old (not_u32 (shl_u32 7 (pin % 10 * 3))) i,
  function_mask (pin % 10) i (omega arith) hi,
  function_value f (pin % 10) i hf (omega arith) hi,
  bit_at-le old i,
)

-- The bits that a function has.
function_bits : (f : ℕ) → f < 8 → bit_at f 0 + 2 * bit_at f 1 + 4 * bit_at f 2 ≡ f
unfolding bit_at
function_bits f h = omega arith

-- `set_gpio_function` gives the pin its function, and the other pins of the register keep theirs.
pub function_field-with_function :
    (old pin f j : ℕ)
    → f < 8
    → j < 10
    → function_field (with_function old pin f) j
      ≡ (if j == pin % 10 then f else function_field old j)
function_field-with_function old pin f j hf hj = ground (
  arith,
  with_function-bit old pin f (j * 3) hf (omega arith),
  with_function-bit old pin f (j * 3 + 1) hf (omega arith),
  with_function-bit old pin f (j * 3 + 2) hf (omega arith),
  function_bits f hf,
)

pull_mask :
    (j i : ℕ)
    → j < 16
    → i < 32
    → bit_at (not_u32 (shl_u32 3 (j * 2))) i ≡ (if i / 2 == j then 0 else 1)
pull_mask j i hj hi =
    let test =
      λ (j i : ℕ). bit_at (not_u32 (shl_u32 3 (j * 2))) i == (if i / 2 == j then 0 else 1) in
    (==_iff _ _).0 (
      holds_below_at 32 (test j) i
        (holds_below_at 16 (λ j. holds_below 32 (test j)) j pull_mask_table hj) hi)

without_pull-bit :
    (old pin i : ℕ)
    → i < 32
    → bit_at (without_pull old pin) i ≡ (if i / 2 == pin % 16 then 0 else bit_at old i)
unfolding without_pull
without_pull-bit old pin i hi = ground (
  arith,
  bit_at-bit_and old (not_u32 (shl_u32 3 (pin % 16 * 2))) i,
  pull_mask (pin % 16) i (omega arith) hi,
  bit_at-le old i,
)

-- `set_bcm2711_pull_none` takes the pin's pull away, and the other pins of the register keep theirs.
pub pull_field-without_pull :
    (old pin j : ℕ)
    → j < 16
    → pull_field (without_pull old pin) j ≡ (if j == pin % 16 then 0 else pull_field old j)
pull_field-without_pull old pin j hj = ground (
  arith,
  without_pull-bit old pin (j * 2) (omega arith),
  without_pull-bit old pin (j * 2 + 1) (omega arith),
)
