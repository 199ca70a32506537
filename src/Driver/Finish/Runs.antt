-- ===== src/Driver/Finish/Runs.antt =====
-- src/bin/virtual-display.rs and src/bin/target-driver.rs: what the lines of both `main`s from
-- `DriverGuard::load` on leave behind.
use raspberry_pi_i2c_target.Prelude.{
  ℕ, Bool, false, ◌≡◌, ◌≢◌, refl, sym, ◌∙◌, ap, Option, Outcome, ok, err, panic, out_of_fuel, ◌>?◌,
  ◌>!◌,
}
use raspberry_pi_i2c_target.Text.{String}
use raspberry_pi_i2c_target.Driver.Settings.{module_name, IdlePull}
use raspberry_pi_i2c_target.Driver.System.{System}
use raspberry_pi_i2c_target.Driver.Kernel.{Kernel, RemovalWorks}
use raspberry_pi_i2c_target.Driver.Guard.{DriverGuard, load}
use raspberry_pi_i2c_target.Driver.Guard.Cleanup.{IsClean, Covers, Leaves}
use raspberry_pi_i2c_target.Driver.Guard.Presence.{presence, Bystanders, both_absent}
use raspberry_pi_i2c_target.Driver.Guard.Loads.{load-Leaves}
use raspberry_pi_i2c_target.Driver.Finish.{finish_application}
use raspberry_pi_i2c_target.Driver.Finish.Clean.{finish_application-IsClean}

module _ (sys : System) (o : String) (k : Kernel sys module_name o)
    (works : RemovalWorks sys module_name o k) (b : Bystanders sys o k) where
  abbrev seen : sys.World → Bool × ℕ
  seen = presence sys module_name o k

  -- A run that ends, ends with neither the module nor the overlay there.
  abbrev pub Cleans : Outcome {0} Unit × sys.World → Type 0
  Cleans r = r.0 ≢ out_of_fuel → IsClean sys module_name o k r.1

  -- A call that keeps what is there, and the rest.
  pub >?-Cleans :
      {A : Type 0} (run : Outcome A × sys.World) (f : A → sys.World → Outcome {0} Unit × sys.World)
      → seen run.1 ≡ (false, 0)
      → ((a : A) (w : sys.World) → seen w ≡ (false, 0) → Cleans (f a w))
      → Cleans (run >? f)
  >?-Cleans (ok a, w) f clean rest = rest a w clean
  >?-Cleans (err e, w) f clean rest = λ _. both_absent sys o k b w clean
  >?-Cleans (panic, w) f clean rest = λ _. both_absent sys o k b w clean
  >?-Cleans (out_of_fuel, w) f clean rest = λ h. absurd (h refl)

  loads-Cleans :
      (run : Outcome DriverGuard × sys.World)
      (f : DriverGuard → sys.World → Outcome {0} Unit × sys.World)
      → Leaves sys module_name o k run
      → ((g : DriverGuard) (w : sys.World) → Covers sys module_name o k g w → Cleans (f g w))
      → Cleans (run >? f)
  loads-Cleans (ok g, w) f leaves rest = rest g w leaves
  loads-Cleans (err e, w) f leaves rest = λ _. leaves
  loads-Cleans (panic, w) f leaves rest = λ _. leaves
  loads-Cleans (out_of_fuel, w) f leaves rest = λ h. absurd (h refl)

  Covers-keeps :
      (g : DriverGuard) (w v : sys.World)
      → seen v ≡ seen w
      → Covers sys module_name o k g w
      → Covers sys module_name o k g v
  Covers-keeps g w v e (same, over, h, a) =
      (same, over, h ∙ sym (ap (λ p. p.0) e), a ∙ sym (ap (λ p. p.1) e))

  module _ {A : Type 0} (serving : sys.World → Outcome A × sys.World)
      (keeps : (w : sys.World) → seen (serving w).1 ≡ seen w) (failed : String) where
    served-Cleans :
        (g : DriverGuard) (w : sys.World)
        → Covers sys module_name o k g w
        → Cleans (serving w >! λ served w. finish_application sys failed served g w)
    unfolding finish_application
    served-Cleans g w covers h =
        (finish_application-IsClean sys module_name o k g (serving w).1
          (Covers-keeps g w (serving w).1 (keeps w) covers) failed works (serving w).0
          (λ e. h (ap (λ r. (finish_application sys failed r g (serving w).1).0) e))).0

    pub run-Cleans :
        (directory : String) (address : ℕ) (pull : IdlePull) (ready : Option ℕ) (w : sys.World)
        → seen w ≡ (false, 0)
        → Cleans (
            load sys directory address pull ready w >? λ g w.
            serving w >! λ served w. finish_application sys failed served g w)
    run-Cleans directory address pull ready w clean =
        loads-Cleans (load sys directory address pull ready w) _
          (load-Leaves sys o k b works directory address pull ready w clean) served-Cleans
