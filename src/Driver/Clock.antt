-- ===== src/Driver/Clock.antt =====
-- src/kernel_target.rs: the wait for the device ends.
use raspberry_pi_i2c_target.Prelude.{ℕ, ◌+◌, ◌≤◌, ◌≡◌}
use raspberry_pi_i2c_target.Text.{String}
use raspberry_pi_i2c_target.Driver.System.{System}

-- The clock is monotone, a reading is the time, and to sleep takes at least as long as was asked.
pub record Clock (sys : System) : Type 0 where
  pub time : sys.World → ℕ
  pub reads : (w : sys.World) → (sys.now w).0 ≡ time w
  pub now_grows : (w : sys.World) → time w ≤ time (sys.now w).1
  pub exists_grows : (path : String) (w : sys.World) → time w ≤ time (sys.exists path w).1
  pub sleeps : (n : ℕ) (w : sys.World) → time w + n ≤ time (sys.sleep n w)
