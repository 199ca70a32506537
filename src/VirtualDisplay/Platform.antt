-- ===== src/VirtualDisplay/Platform.antt =====
-- What src/bin/virtual-display.rs calls outside the program: the target device, the SDL window, the
-- lines of the GPIO chip, the clock and the flag that the signals clear.
use raspberry_pi_i2c_target.Prelude.{
  ℕ, ◌≤◌, Bool, true, false, ◌≡◌, Outcome, ok, err, panic, out_of_fuel, Call, Bytes,
}
use raspberry_pi_i2c_target.Text.{String}
use raspberry_pi_i2c_target.Buttons.{SdlInput}
use raspberry_pi_i2c_target.Buttons.Outputs.{Chip, LineValues}
use raspberry_pi_i2c_target.Driver.System.{System}

pub record Platform : Type 1 where
  pub system : System
  -- `OpenOptions::new().read(true).custom_flags(O_NONBLOCK).open(DEVICE)`
  pub open_target : Call system.World Unit
  -- `target.read(&mut request)`: the bytes that it fills
  pub read : Call system.World Bytes
  -- `SdlDisplay::new(title, vsync)`
  pub open_window : String → Bool → Call system.World Unit
  -- `SdlDisplay::render`
  pub render : Bytes → Call system.World Unit
  -- `SdlDisplay::poll_input`
  pub poll_input : system.World → SdlInput × system.World
  pub chip : Chip system.World
  -- `RUNNING.load` and `RUNNING.store(false)`
  pub is_running : system.World → Bool × system.World
  pub stop : system.World → system.World

-- A value or an error, and never a panic.
abbrev pub responds : {A : Type 0} → Outcome A → Bool
responds (ok a) = true
responds (err e) = true
responds panic = false
responds out_of_fuel = false

-- What the window shows, the time, and how the calls change them.
pub record Screen (f : Platform) : Type 0 where
  pub shown : f.system.World → Bytes
  pub time : f.system.World → ℕ
  pub render_responds : (b : Bytes) (w : f.system.World) → responds (f.render b w).0 ≡ true
  pub set_responds :
      (descriptor number : ℕ) (v : LineValues) (w : f.system.World)
      → responds (f.chip.set_values descriptor number v w).0 ≡ true
  -- A successful `render` shows what it is given.
  pub renders :
      (b : Bytes) (w : f.system.World) → (f.render b w).0 ≡ ok tt → shown (f.render b w).1 ≡ b
  -- The clock is monotone, and a reading is the time.
  pub render_time : (b : Bytes) (w : f.system.World) → time w ≤ time (f.render b w).1
  pub reads :
      (w : f.system.World) → ((f.system.now w).0 ≡ time w) × (time w ≤ time (f.system.now w).1)
  pub poll_time : (w : f.system.World) → time w ≤ time (f.poll_input w).1
  pub set_time :
      (descriptor number : ℕ) (v : LineValues) (w : f.system.World)
      → time w ≤ time (f.chip.set_values descriptor number v w).1
  pub stop_time : (w : f.system.World) → time w ≤ time (f.stop w)
  -- The other calls leave the picture.
  pub now_shown : (w : f.system.World) → shown (f.system.now w).1 ≡ shown w
  pub poll_shown : (w : f.system.World) → shown (f.poll_input w).1 ≡ shown w
  pub set_shown :
      (descriptor number : ℕ) (v : LineValues) (w : f.system.World)
      → shown (f.chip.set_values descriptor number v w).1 ≡ shown w
  pub stop_shown : (w : f.system.World) → shown (f.stop w) ≡ shown w
  -- So do the reads of the device and of the flag, and a sleep, and they take their time.
  pub read_keeps :
      (w : f.system.World) → (shown (f.read w).1 ≡ shown w) × (time w ≤ time (f.read w).1)
  pub running_keeps :
      (w : f.system.World)
      → (shown (f.is_running w).1 ≡ shown w) × (time w ≤ time (f.is_running w).1)
  pub sleep_keeps :
      (n : ℕ) (w : f.system.World)
      → (shown (f.system.sleep n w) ≡ shown w) × (time w ≤ time (f.system.sleep n w))
  pub read_responds : (w : f.system.World) → responds (f.read w).0 ≡ true
