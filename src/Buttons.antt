-- ===== src/Buttons.antt =====
-- src/sdl_display.rs: `ButtonState` and `SdlInput`. src/gpio_buttons.rs: the line values.
pub mod Outputs
use raspberry_pi_i2c_target.Prelude.{ℕ, ◌+◌, ◌*◌, Bool, true, false, not, ◌&&◌, if◌then◌else◌}

pub record ButtonState : Type 0 where
  pub left : Bool
  pub right : Bool

-- `ButtonState::default()`
abbrev pub released : ButtonState
released = record { left = false; right = false }

pub record SdlInput : Type 0 where
  pub close : Bool
  pub buttons : ButtonState

unfoldable pub equal_flags : Bool → Bool → Bool
equal_flags true b = b
equal_flags false b = not b

-- The derived `==` of `ButtonState`.
unfoldable pub equal_states : ButtonState → ButtonState → Bool
equal_states a b = equal_flags a.left b.left && equal_flags a.right b.right

abbrev flag : Bool → ℕ
flag b = if b then 1 else 0

-- `bits` of the `LineValues` in `GpioButtonOutputs::set`; the lines are open drain, so a held button
-- is a zero.
unfoldable pub line_bits : ButtonState → ℕ
line_bits state = flag (not state.left) + flag (not state.right) * 2
