-- ===== src/Driver/Finish/Clean.antt =====
-- src/bin/virtual-display.rs and src/bin/target-driver.rs: `main` removes the driver, however `serve`
-- ends, and reports what went wrong.
use raspberry_pi_i2c_target.Prelude.{
  ◌≡◌, ◌≢◌, refl, ap, Outcome, ok, err, panic, out_of_fuel, ErrorKind, Error,
}
use raspberry_pi_i2c_target.Text.{String, ◌<>◌}
use raspberry_pi_i2c_target.Driver.System.{System}
use raspberry_pi_i2c_target.Driver.Commands.{fails}
use raspberry_pi_i2c_target.Driver.Kernel.{Kernel, RemovalWorks}
use raspberry_pi_i2c_target.Driver.Guard.{DriverGuard, unload, drop_guard}
use raspberry_pi_i2c_target.Driver.Guard.Cleanup.{
  Covers, IsClean, unload-Covers, unload-IsClean, unload_twice,
}
use raspberry_pi_i2c_target.Driver.Finish.{combine_errors, finish_application}

-- What `main` reports: the error of `serve`, if it had one.
abbrev pub Reports : {A : Type 0} → Outcome A → Outcome {0} Unit → Type 0
Reports (ok v) r = r ≡ ok tt
Reports (err error) r = r ≡ err error
Reports panic r = r ≡ panic
Reports out_of_fuel r = r ≡ out_of_fuel

module _ (sys : System) (m o : String) (k : Kernel sys m o) (g : DriverGuard) (w : sys.World)
    (covers : Covers sys m o k g w) (failed : String) where
  unloaded_twice :
      (unload sys g w).0 ≡ ok tt
      → drop_guard sys (unload sys g w).1.0 (unload sys g w).1.1 ≡ (unload sys g w).1.1
  unfolding drop_guard
  unloaded_twice done =
      ap (λ r. r.1.1)
        (unload_twice sys g (unload sys g w).1.0 w (unload sys g w).1.1 (unload sys g w).1.1
          (ap (λ r. (r, (unload sys g w).1)) done))

  -- The end of `main` after `serve`, by the outcome of `unload`: a success says that neither the
  -- module nor the overlay is there, and an error of both names both.
  abbrev pub Tells : {A : Type 0} → Outcome A → Outcome {0} Unit × sys.World → Type 0
  Tells (ok v) r = (r.0 ≡ (unload sys g w).0) × (r.0 ≡ ok tt → IsClean sys m o k r.1)
  Tells (err error) r =
      ((unload sys g w).0 ≡ ok tt → (r.0 ≡ err error) × IsClean sys m o k r.1)
      × ((cleanup : Error)
          → (unload sys g w).0 ≡ err cleanup
          → r.0
            ≡ fails ErrorKind.other
                (failed <> error.message <> "; cleanup also failed: " <> cleanup.message))
  Tells panic r = r.0 ≡ panic
  Tells out_of_fuel r = r.0 ≡ out_of_fuel

  -- If the flags of the guard say what is there, then the end of `main` does not hide a removal that
  -- fails: behind a `serve` that returned, the result is that of `unload`, and a success leaves
  -- neither the module nor the overlay; behind a `serve` that failed, the result is its very error
  -- with neither there, if `unload` succeeds, and otherwise an error with both messages; a panic
  -- stays one.
  pub finish_application-Tells :
      {A : Type 0} (r : Outcome A) → Tells r (finish_application sys failed r g w)
  unfolding finish_application combine_errors
  finish_application-Tells (ok v) =
      let (after, clean) = unload-Covers sys m o k g w covers in
      (refl, λ done. rw (unloaded_twice done) (clean done))
  finish_application-Tells (err error) =
      let (after, clean) = unload-Covers sys m o k g w covers in
      (
        λ done. (ap (combine_errors failed error) done, rw (unloaded_twice done) (clean done)),
        λ cleanup e. ap (combine_errors failed error) e,
      )
  finish_application-Tells panic = refl
  finish_application-Tells out_of_fuel = refl

  module _ (works : RemovalWorks sys m o k) where
    dropped : IsClean sys m o k (drop_guard sys g w)
    unfolding drop_guard
    dropped = (unload-IsClean sys m o k works g w covers).1

    -- However `serve` returns or panics, if the flags of the guard say what is there, and the
    -- commands that remove are not refused where there is something to remove, then at the end of
    -- `main` neither the module nor the overlay is there, and the result is success, or the very
    -- error of `serve`.
    pub finish_application-IsClean :
        {A : Type 0} (r : Outcome A)
        → r ≢ out_of_fuel
        → IsClean sys m o k (finish_application sys failed r g w).1
          × Reports r (finish_application sys failed r g w).0
    unfolding finish_application combine_errors
    finish_application-IsClean (ok v) h =
        let (done, clean) = unload-IsClean sys m o k works g w covers in
        (rw (unloaded_twice done) clean, done)
    finish_application-IsClean (err error) h =
        let (done, clean) = unload-IsClean sys m o k works g w covers in
        (rw (unloaded_twice done) clean, rw done refl)
    finish_application-IsClean panic h = (dropped, refl)
    finish_application-IsClean out_of_fuel h = absurd (h refl)
