-- ===== src/Direct/Target/Functions.antt =====
-- src/bin/target.rs: the functions and pulls of the pins that `configure` and `shutdown` set.
use raspberry_pi_i2c_target.Prelude.{
  ℕ, zero, suc, ◌+◌, ◌/◌, ◌%◌, ◌<◌, ◌≡◌, refl, true, arith, ◌==◌, ◌||◌, if◌then◌else◌, shl_u32,
  bit_or, bit_at, bit_at-bit_or, holds_below, holds_below_at, ==_iff, [],
}
use raspberry_pi_i2c_target.Direct.Hardware.{Hardware, PullControl}
use raspberry_pi_i2c_target.Direct.Machine.{Page, Peripheral, store}
use raspberry_pi_i2c_target.Direct.Target.{HardwareTarget, with_function, without_pull, bsc_control}
use raspberry_pi_i2c_target.Direct.Target.Fields.{
  function_field, pull_field, function_field-with_function, pull_field-without_pull,
}

-- The function and the pull of a pin.
abbrev pub function_of : Peripheral → ℕ → ℕ
function_of p pin = function_field (p.pins (pin / 10)) (pin % 10)

abbrev pub pull_of : (ℕ → ℕ) → ℕ → ℕ
pull_of pins pin = pull_field (pins (57 + pin / 16)) (pin % 16)

abbrev pub set_function : ℕ → ℕ → Peripheral → Peripheral
set_function pin f p = store Page.gpio (pin / 10) (with_function (p.pins (pin / 10)) pin f) p

abbrev pub clear_pull : ℕ → Peripheral → Peripheral
clear_pull pin p = store Page.gpio (57 + pin / 16) (without_pull (p.pins (57 + pin / 16)) pin) p

pub function_of-set_function :
    (pin f q : ℕ) (p : Peripheral)
    → f < 8
    → function_of (set_function pin f p) q ≡ (if q == pin then f else function_of p q)
function_of-set_function pin f q p h =
    ground (arith, function_field-with_function (p.pins (pin / 10)) pin f (q % 10) h (omega arith))

pull_of-clear_pull :
    (pin q : ℕ) (p : Peripheral)
    → pull_of (clear_pull pin p).pins q ≡ (if q == pin then 0 else pull_of p.pins q)
pull_of-clear_pull pin q p =
    ground (arith, pull_field-without_pull (p.pins (57 + pin / 16)) pin (q % 16) (omega arith))

-- The target is disabled and has no address, and both pins are inputs.
abbrev pub IsReleased : Hardware → Peripheral → Type 0
IsReleased h p =
    (p.control ≡ 0)
    × (p.slave ≡ 0)
    × (function_of p h.target_sda ≡ 0)
    × (function_of p h.target_scl ≡ 0)

-- The two pins in `GPPUDCLK0`.
abbrev pub pins_of_both : Hardware → ℕ
pins_of_both h = bit_or (shl_u32 1 h.target_sda) (shl_u32 1 h.target_scl)

abbrev pub pulled_by : PullControl → Hardware → Peripheral → Peripheral
pulled_by PullControl.legacy h p =
    store Page.gpio 38 0
      (store Page.gpio 37 0 (store Page.gpio 38 (pins_of_both h) (store Page.gpio 37 0 p)))
pulled_by PullControl.bcm2711 h p = clear_pull h.target_scl (clear_pull h.target_sda p)

abbrev pub pulled : Hardware → Peripheral → Peripheral
pulled h p = pulled_by h.pull_control h p

-- The target is disabled and has no address.
abbrev pub disabled : Peripheral → Peripheral
disabled p = record p { control = 0; slave = 0; queued = [] }

abbrev pub configured : HardwareTarget → Peripheral → Peripheral
configured t p =
    let pulls = pulled t.hardware (disabled p) in
    record (set_function t.hardware.target_scl 7 (set_function t.hardware.target_sda 7 pulls)) {
      control = bsc_control;
      slave = t.address;
      queued = [];
    }

abbrev pub shut_down : HardwareTarget → Peripheral → Peripheral
shut_down t p =
    set_function t.hardware.target_scl 0 (set_function t.hardware.target_sda 0 (disabled p))

pub pulled-function :
    (control : PullControl) (h : Hardware) (p : Peripheral) (q : ℕ)
    → q < 54
    → function_of (pulled (record h { pull_control = control }) p) q ≡ function_of p q
pulled-function PullControl.legacy h p q less = ground arith
pulled-function PullControl.bcm2711 h p q less = ground arith

pub pulled-sent :
    (control : PullControl) (h : Hardware) (p : Peripheral)
    → (pulled (record h { pull_control = control }) p).sent ≡ p.sent
pulled-sent PullControl.legacy h p = refl
pulled-sent PullControl.bcm2711 h p = refl

-- Both pins have one function, and every other pin has the one it had.
pub both_functions :
    (f sda scl q : ℕ) (p : Peripheral)
    → f < 8
    → function_of (set_function scl f (set_function sda f p)) q
      ≡ (if q == sda || q == scl then f else function_of p q)
both_functions f sda scl q p h = ground (
  arith,
  function_of-set_function scl f q (set_function sda f p) h,
  function_of-set_function sda f q p h,
)

-- The pulls of the two pins are off and every other pin keeps its own: on the older board by the
-- clocked sequence, which ends with both of its registers at 0, on the newer one by their fields.
abbrev pub PullsOff : PullControl → Hardware → (before after : Peripheral) → Type 0
PullsOff PullControl.legacy h before after =
    ((pin : ℕ)
      → pin < 54
      → after.pulls pin
        ≡ (if pin == h.target_sda || pin == h.target_scl then 0 else before.pulls pin))
    × (after.pins 37 ≡ 0)
    × (after.pins 38 ≡ 0)
PullsOff PullControl.bcm2711 h before after =
    (pin : ℕ)
    → pin < 54
    → pull_of after.pins pin
      ≡ (if pin == h.target_sda || pin == h.target_scl then 0 else pull_of before.pins pin)

-- The functions of two pins are set.
abbrev pub functions_set : ℕ → Hardware → Peripheral → Peripheral
functions_set f h p = set_function h.target_scl f (set_function h.target_sda f p)

pin_table :
    holds_below 32
      (λ k. holds_below 54 (λ pin. bit_at (shl_u32 1 k) pin == (if pin == k then 1 else 0)))
    ≡ true
unfolding holds_below bit_at
pin_table = refl

pin_bit : (k pin : ℕ) → k < 32 → pin < 54 → bit_at (shl_u32 1 k) pin ≡ (if pin == k then 1 else 0)
pin_bit k pin hk hp =
    let test = λ (k pin : ℕ). bit_at (shl_u32 1 k) pin == (if pin == k then 1 else 0) in
    (==_iff _ _).0 (
      holds_below_at 54 (test k) pin
        (holds_below_at 32 (λ k. holds_below 54 (test k)) k pin_table hk) hp)

zero_bit : (pin : ℕ) → bit_at 0 pin ≡ 0
unfolding bit_at
zero_bit zero = refl
zero_bit (suc pin) = zero_bit pin

pub pulled-PullsOff :
    (control : PullControl) (h : Hardware) (f enabled address : ℕ) (p : Peripheral)
    → h.target_sda < 32
    → h.target_scl < 32
    → PullsOff control h p
        (record (functions_set f h (pulled (record h { pull_control = control }) (disabled p))) {
          control = enabled;
          slave = address;
          queued = [];
        })
pulled-PullsOff PullControl.legacy h f enabled address p a b = (
  λ pin less. ground (
    arith,
    bit_at-bit_or (shl_u32 1 h.target_sda) (shl_u32 1 h.target_scl) pin,
    pin_bit h.target_sda pin a less,
    pin_bit h.target_scl pin b less,
    zero_bit pin,
  ),
  ground arith,
  ground arith,
)
pulled-PullsOff PullControl.bcm2711 h f enabled address p a b = λ pin less. ground (
  arith,
  pull_of-clear_pull h.target_scl pin (clear_pull h.target_sda (disabled p)),
  pull_of-clear_pull h.target_sda pin (disabled p),
)
