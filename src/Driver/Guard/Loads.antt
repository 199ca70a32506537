-- ===== src/Driver/Guard/Loads.antt =====
-- src/kernel_target.rs: what `DriverGuard::load` leaves behind, with all the checks in front of it.
use raspberry_pi_i2c_target.Prelude.{
  ℕ, Bool, false, not, ◌≡◌, refl, arith, ◌∙◌, Option, Outcome, ok, err, panic, out_of_fuel, ◌>?◌,
  Bool-cases, inl, inr,
}
use raspberry_pi_i2c_target.Text.{String, contains_text}
use raspberry_pi_i2c_target.Driver.Settings.{module_name, IdlePull, validate_ready_gpio}
use raspberry_pi_i2c_target.Driver.System.{System}
use raspberry_pi_i2c_target.Driver.Kernel.{Kernel, RemovalWorks}
use raspberry_pi_i2c_target.Driver.Commands.{ensure_artifacts_current}
use raspberry_pi_i2c_target.Driver.Guard.{
  DriverConfiguration, DriverGuard, detect, ensure_unloaded, load_configured, load,
}
use raspberry_pi_i2c_target.Driver.Guard.Cleanup.{Leaves, start_driver-Leaves}
use raspberry_pi_i2c_target.Driver.Guard.Presence.{
  presence, Bystanders, ensure_unloaded-keeps, ensure_artifacts_current-keeps, detect-keeps,
  both_absent,
}

module _ (sys : System) (o : String) (k : Kernel sys module_name o) (b : Bystanders sys o k) where
  abbrev seen : sys.World → Bool × ℕ
  seen = presence sys module_name o k

  detect-module :
      (c : DriverConfiguration) (w : sys.World)
      → (detect sys w).0 ≡ ok c
      → c.module_file ≡ module_name
  unfolding detect
  detect-module c w e = ground (arith, e)

  -- A result of the calls in front of `load`, which have left the kernel as it was.
  >?-Leaves :
      {A : Type 0} (works : RemovalWorks sys module_name o k) (run : Outcome A × sys.World)
      (f : A → sys.World → Outcome DriverGuard × sys.World)
      → seen run.1 ≡ (false, 0)
      → ((a : A) → run.0 ≡ ok a → Leaves sys module_name o k (f a run.1))
      → Leaves sys module_name o k (run >? f)
  >?-Leaves works (ok a, w) f clean rest = rest a refl
  >?-Leaves works (err e, w) f clean rest = both_absent sys o k b w clean
  >?-Leaves works (panic, w) f clean rest = both_absent sys o k b w clean
  >?-Leaves works (out_of_fuel, w) f clean rest = tt

  -- A start of the driver in a kernel with neither the module nor the overlay, whatever check ends
  -- it: an error or a panic leaves it so, and a guard that is returned covers what is there.
  load_configured-Leaves :
      (works : RemovalWorks sys module_name o k) (directory : String) (c : DriverConfiguration)
      (address : ℕ) (pull : IdlePull) (ready : Option ℕ) (w : sys.World)
      → c.module_file ≡ module_name
      → c.overlay ≡ o
      → seen w ≡ (false, 0)
      → Leaves sys module_name o k (load_configured sys directory c address pull ready w)
  unfolding load_configured
  load_configured-Leaves works directory c address pull ready w same over clean =
      let w1 = (sys.read_text "/proc/device-tree/model" w).1 in
      let clean1 = b.read_keeps "/proc/device-tree/model" w ∙ clean in
      let clean2 = ensure_unloaded-keeps sys o k b c w1 ∙ clean1 in
      >?-Leaves works (sys.read_text "/proc/device-tree/model" w) _ clean1 λ model _.
        elim (Bool-cases (not (contains_text model c.model_contains))) [
          | inl other ↦ rw other (both_absent sys o k b w1 clean1)
          | inr known ↦ rw known (
              >?-Leaves works (validate_ready_gpio c.hardware_name c.target_pins ready, w1) _ clean1
                λ _ _. >?-Leaves works (ensure_unloaded sys c w1) _ clean2 λ _ _.
                  let w2 = (ensure_unloaded sys c w1).1 in
                  let w3 = (ensure_artifacts_current sys directory c.module_file c.overlay w2).1 in
                  let clean3 =
                    ensure_artifacts_current-keeps sys o k b directory c.module_file c.overlay w2
                    ∙ clean2 in
                  >?-Leaves works
                    (ensure_artifacts_current sys directory c.module_file c.overlay w2) _ clean3
                    λ _ _.
                      start_driver-Leaves sys module_name o k works c directory c.device _ w3 same
                        over (both_absent sys o k b w3 clean3))
        ]

  pub load-Leaves :
      (works : RemovalWorks sys module_name o k) (directory : String) (address : ℕ)
      (pull : IdlePull) (ready : Option ℕ) (w : sys.World)
      → seen w ≡ (false, 0)
      → Leaves sys module_name o k (load sys directory address pull ready w)
  unfolding load
  load-Leaves works directory address pull ready w clean =
      >?-Leaves works (detect sys w) _ (detect-keeps sys o k b w ∙ clean) λ c e.
        load_configured-Leaves works directory c address pull ready (detect sys w).1
          (detect-module c w e) (b.board c w e) (detect-keeps sys o k b w ∙ clean)
