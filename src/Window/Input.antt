-- ===== src/Window/Input.antt =====
-- src/sdl_display.rs: `mouse_buttons_for_x` and `SdlDisplay::poll_input`. A window's width is no
-- negative number, and is taken to be below 2 ^ 30, so that `width * 2` does not overflow.
pub mod Polled
use raspberry_pi_i2c_target.Prelude.{
  ℕ, zero, suc, Outcome, ok, out_of_fuel, ◌>?◌, ◌>!◌, ◌*◌, ◌/◌, ◌%◌, ◌==◌, ◌||◌, Bool, true, false,
  ltb, Option, none, some, if◌then◌else◌,
}
use raspberry_pi_i2c_target.Buttons.{ButtonState, SdlInput, released, equal_states}

-- A horizontal position, an `i32`: `negsuc n` is `-1 - n`.
pub data Position : Type 0 where
  pos negsuc : ℕ → Position

-- `x < bound`
abbrev pub is_left_of : Position → ℕ → Bool
is_left_of (Position.pos x) bound = ltb x bound
is_left_of (Position.negsuc x) bound = true

unfoldable pub mouse_buttons_for_x : Position → ℕ → ButtonState
mouse_buttons_for_x x width =
    if is_left_of x (width / 3)
    then record { left = true; right = false }
    else if is_left_of x (width * 2 / 3)
    then record { left = true; right = true }
    else record { left = false; right = true }

-- The calls of SDL: the type of the next event, the mask and the position of the mouse, the width of
-- the window.
pub record Sdl : Type 1 where
  pub World : Type 0
  pub poll_event : World → Option ℕ × World
  pub mouse_state : World → (ℕ × Position) × World
  pub window_width : World → ℕ × World

abbrev pub sdl_quit : ℕ
sdl_quit = 0x100

-- The fields `mouse_buttons` and `reported_buttons` of `SdlDisplay`.
pub record Held : Type 0 where
  pub mouse_buttons : ButtonState
  pub reported_buttons : ButtonState

abbrev pub report : ButtonState → Held → Held
report buttons h =
    if equal_states buttons h.reported_buttons
    then record h { mouse_buttons = buttons }
    else record { mouse_buttons = buttons; reported_buttons = buttons }

module _ (s : Sdl) where
  -- One round of the `while` of `poll_input`; `again` is the next one.
  abbrev next_event :
      Option ℕ → Bool → (Bool → s.World → Outcome Bool × s.World) → s.World → Outcome Bool × s.World
  next_event none close again w = (ok close, w)
  next_event (some event_type) close again w = again (close || event_type == sdl_quit) w

  -- The `while` of `poll_input`, for fewer than `fuel` events.
  unfoldable pub drain_events : (fuel : ℕ) → Bool → s.World → Outcome Bool × s.World
  drain_events zero close w = (out_of_fuel, w)
  drain_events (suc fuel) close w =
      next_event (s.poll_event w).0 close (drain_events fuel) (s.poll_event w).1

  unfoldable pub read_mouse : s.World → ButtonState × s.World
  read_mouse w = s.mouse_state w >! λ mouse w.
      if mouse.0 % 2 == 0
      then (released, w)
      else (mouse_buttons_for_x mouse.1 (s.window_width w).0, (s.window_width w).1)

  unfoldable pub poll_input : (fuel : ℕ) → Held → s.World → Outcome (SdlInput × Held) × s.World
  poll_input fuel h w = drain_events fuel false w >? λ close w. read_mouse w >! λ buttons w.
      (ok (record { close = close; buttons = buttons }, report buttons h), w)
