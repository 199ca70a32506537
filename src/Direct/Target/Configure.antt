-- ===== src/Direct/Target/Configure.antt =====
-- src/bin/target.rs: what `configure` and `shutdown` do to the hardware.
use raspberry_pi_i2c_target.Prelude.{
  ℕ, ◌+◌, ◌/◌, ◌<◌, ◌≡◌, refl, ap, ◌∙◌, arith, ◌==◌, ◌||◌, if◌then◌else◌,
}
use raspberry_pi_i2c_target.Direct.Hardware.{Hardware, PullControl}
use raspberry_pi_i2c_target.Direct.Machine.{Page, Machine, Peripheral, Registers}
use raspberry_pi_i2c_target.Direct.Target.{
  HardwareTarget, gpio_alt3, bsc_control, set_gpio_function, set_bcm2711_pull_none,
  disable_internal_pulls, disable_pulls, configure, shutdown,
}
use raspberry_pi_i2c_target.Direct.Target.Functions.{
  function_of, set_function, clear_pull, pulled, configured, shut_down, both_functions,
  pulled-function, pulled-sent, disabled, PullsOff, pulled-PullsOff, IsReleased,
}

module _ (m : Machine) (r : Registers m) where
  set_gpio_function-peripheral :
      (pin f : ℕ) (w : m.World)
      → r.peripheral (set_gpio_function m pin f w) ≡ set_function pin f (r.peripheral w)
  unfolding set_gpio_function
  set_gpio_function-peripheral pin f w =
      let w1 = (m.read_register Page.gpio (pin / 10) w).1 in
      r.write_stores Page.gpio (pin / 10) _ w1
      ∙ rw (r.read_loads Page.gpio (pin / 10) w, r.read_pins (pin / 10) w) refl

  set_bcm2711_pull_none-peripheral :
      (pin : ℕ) (w : m.World)
      → r.peripheral (set_bcm2711_pull_none m pin w) ≡ clear_pull pin (r.peripheral w)
  unfolding set_bcm2711_pull_none
  set_bcm2711_pull_none-peripheral pin w =
      let register = 57 + pin / 16 in
      let w1 = (m.read_register Page.gpio register w).1 in
      r.write_stores Page.gpio register _ w1
      ∙ rw (r.read_loads Page.gpio register w, r.read_pins register w) refl

  disable_pulls-peripheral :
      (control : PullControl) (h : Hardware) (w : m.World)
      → r.peripheral (disable_pulls m control h w)
        ≡ pulled (record h { pull_control = control }) (r.peripheral w)
  disable_pulls-peripheral PullControl.legacy h w = simp (r.write_stores, r.sleep_keeps)
  disable_pulls-peripheral PullControl.bcm2711 h w = simp set_bcm2711_pull_none-peripheral

  configure-peripheral :
      (t : HardwareTarget) (w : m.World)
      → r.peripheral (configure m t w) ≡ configured t (r.peripheral w)
  unfolding configure disable_internal_pulls
  configure-peripheral t w =
      simp (r.write_stores, set_gpio_function-peripheral, disable_pulls-peripheral)

  shutdown-peripheral :
      (t : HardwareTarget) (w : m.World)
      → r.peripheral (shutdown m t w) ≡ shut_down t (r.peripheral w)
  unfolding shutdown
  shutdown-peripheral t w = simp (r.write_stores, set_gpio_function-peripheral)

  -- If both pins of the board are among the first 32, as those of both boards are, then after
  -- `configure` the target is enabled at its address and has sent nothing more, both pins have
  -- function ALT3 and no pull, and every other pin has the function and the pull that it had. On the
  -- older board the pulls are those that a write to `GPPUDCLK0` clocks in from `GPPUD`, and both
  -- registers end at 0.
  pub configure-listens :
      (t : HardwareTarget) (w : m.World)
      → t.hardware.target_sda < 32
      → t.hardware.target_scl < 32
      → ((r.peripheral (configure m t w)).control ≡ bsc_control)
        × ((r.peripheral (configure m t w)).slave ≡ t.address)
        × ((r.peripheral (configure m t w)).sent ≡ (r.peripheral w).sent)
        × ((pin : ℕ)
            → pin < 54
            → function_of (r.peripheral (configure m t w)) pin ≡ (
                if pin == t.hardware.target_sda || pin == t.hardware.target_scl
                then gpio_alt3
                else function_of (r.peripheral w) pin))
        × PullsOff t.hardware.pull_control t.hardware
            (r.peripheral w)
            (r.peripheral (configure m t w))
  configure-listens t w sda scl = rw (configure-peripheral t w) (
    refl,
    refl,
    pulled-sent t.hardware.pull_control t.hardware (disabled (r.peripheral w)),
    λ pin less. ground (
      arith,
      both_functions 7 t.hardware.target_sda t.hardware.target_scl pin
          (pulled t.hardware (disabled (r.peripheral w))) (omega arith),
      pulled-function t.hardware.pull_control t.hardware (disabled (r.peripheral w)) pin less,
    ),
    pulled-PullsOff t.hardware.pull_control t.hardware 7 bsc_control t.address (r.peripheral w) sda
        scl,
  )

  pub shutdown-functions :
      (t : HardwareTarget) (w : m.World) (pin : ℕ)
      → function_of (r.peripheral (shutdown m t w)) pin ≡ (
          if pin == t.hardware.target_sda || pin == t.hardware.target_scl
          then 0
          else function_of (r.peripheral w) pin)
  shutdown-functions t w pin = rw (shutdown-peripheral t w) (
      both_functions 0 t.hardware.target_sda t.hardware.target_scl pin (disabled (r.peripheral w))
        (omega arith))

  pub shutdown-IsReleased :
      (t : HardwareTarget) (w : m.World) → IsReleased t.hardware (r.peripheral (shutdown m t w))
  shutdown-IsReleased t w = (
    ap (λ (p : Peripheral). p.control) (shutdown-peripheral t w),
    ap (λ (p : Peripheral). p.slave) (shutdown-peripheral t w),
    ground (arith, shutdown-functions t w t.hardware.target_sda),
    ground (arith, shutdown-functions t w t.hardware.target_scl),
  )
