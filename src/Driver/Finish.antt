-- ===== src/Driver/Finish.antt =====
-- src/bin/virtual-display.rs and src/bin/target-driver.rs: the end of both `main`s, which remove the
-- driver and combine the results. They differ in the text before the error of `serve`.
pub mod Clean
pub mod Runs
use raspberry_pi_i2c_target.Prelude.{Outcome, ok, err, panic, out_of_fuel, ErrorKind, Error, ◌>!◌}
use raspberry_pi_i2c_target.Text.{String, ◌<>◌}
use raspberry_pi_i2c_target.Driver.System.{System}
use raspberry_pi_i2c_target.Driver.Commands.{fails}
use raspberry_pi_i2c_target.Driver.Guard.{DriverGuard, unload, drop_guard}

-- The `match (serve_result, unload_result)`, of an error of `serve`.
unfoldable pub combine_errors : String → Error → Outcome {0} Unit → Outcome {0} Unit
combine_errors failed error (ok a) = err error
combine_errors failed serve_error (err unload_error) =
    fails ErrorKind.other
      (failed <> serve_error.message <> "; cleanup also failed: " <> unload_error.message)
combine_errors failed error panic = panic
combine_errors failed error out_of_fuel = out_of_fuel

module _ (sys : System) (failed : String) {A : Type 0} where
  -- The lines of `main` behind `serve`. At the end of `main` the guard is dropped, which calls
  -- `unload` again; a panic only drops it.
  unfoldable pub finish_application :
      Outcome A → DriverGuard → sys.World → Outcome {0} Unit × sys.World
  finish_application (ok v) guard w =
      unload sys guard w >! λ unloaded (guard, w). (unloaded, drop_guard sys guard w)
  finish_application (err error) guard w = unload sys guard w >! λ unloaded (guard, w).
      (combine_errors failed error unloaded, drop_guard sys guard w)
  finish_application panic guard w = (panic, drop_guard sys guard w)
  finish_application out_of_fuel guard w = (out_of_fuel, w)
