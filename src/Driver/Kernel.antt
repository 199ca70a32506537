-- ===== src/Driver/Kernel.antt =====
-- What src/kernel_target.rs relies on in the commands that it runs: what `insmod`, `rmmod` and
-- `dtoverlay` do to the kernel, for one module and one overlay.
pub mod Runs
use raspberry_pi_i2c_target.Prelude.{
  ℕ, suc, ◌<◌, Bool, true, false, ◌≡◌, arith, List, [], ◌∷◌, Outcome, ok, err, panic, out_of_fuel,
  Bool-cases, inl, inr,
}
use raspberry_pi_i2c_target.Text.{String, ◌<>◌}
use raspberry_pi_i2c_target.Driver.System.{System, Output}
use raspberry_pi_i2c_target.Driver.Commands.{join, command_output, run_command}

-- The command was run, and its status was a success.
abbrev pub succeeded : Outcome Output → Bool
succeeded (ok output) = output.success
succeeded (err e) = false
succeeded panic = false
succeeded out_of_fuel = false

pub record Kernel (sys : System) (module_file overlay : String) : Type 0 where
  -- The module is in the kernel; so many instances of the overlay are active.
  pub loaded : sys.World → Bool
  pub applied : sys.World → ℕ
  -- `dtoverlay -d …` changes the overlay alone, and a failure leaves it.
  pub apply_keeps :
      (rest : List String) (w : sys.World)
      → loaded (sys.execute "dtoverlay" ("-d" ∷ rest) w).1 ≡ loaded w
  pub apply_fails :
      (rest : List String) (w : sys.World)
      → succeeded (sys.execute "dtoverlay" ("-d" ∷ rest) w).0 ≡ false
      → applied (sys.execute "dtoverlay" ("-d" ∷ rest) w).1 ≡ applied w
  -- A success for this overlay adds an instance.
  pub apply_adds :
      (directory : String) (rest : List String) (w : sys.World)
      → succeeded (sys.execute "dtoverlay" ("-d" ∷ directory ∷ overlay ∷ rest) w).0 ≡ true
      → applied (sys.execute "dtoverlay" ("-d" ∷ directory ∷ overlay ∷ rest) w).1 ≡ suc (applied w)
  -- `insmod` changes the module alone, and a failure leaves it.
  pub insmod_keeps :
      (arguments : List String) (w : sys.World)
      → applied (sys.execute "insmod" arguments w).1 ≡ applied w
  pub insmod_fails :
      (arguments : List String) (w : sys.World)
      → succeeded (sys.execute "insmod" arguments w).0 ≡ false
      → loaded (sys.execute "insmod" arguments w).1 ≡ loaded w
  -- A success for this module's file puts it into the kernel.
  pub insmod_adds :
      (directory : String) (w : sys.World)
      → succeeded (sys.execute "insmod" (join directory (module_file <> ".ko") ∷ []) w).0 ≡ true
      → loaded (sys.execute "insmod" (join directory (module_file <> ".ko") ∷ []) w).1 ≡ true
  -- A successful `rmmod` removes the module, a failed one leaves it, and neither touches the overlay.
  pub rmmod_removes :
      (w : sys.World)
      → succeeded (sys.execute "rmmod" (module_file ∷ []) w).0 ≡ true
      → loaded (sys.execute "rmmod" (module_file ∷ []) w).1 ≡ false
  pub rmmod_fails :
      (w : sys.World)
      → succeeded (sys.execute "rmmod" (module_file ∷ []) w).0 ≡ false
      → loaded (sys.execute "rmmod" (module_file ∷ []) w).1 ≡ loaded w
  pub rmmod_keeps :
      (w : sys.World) → applied (sys.execute "rmmod" (module_file ∷ []) w).1 ≡ applied w
  -- A successful `dtoverlay -r` removes an instance, a failed one leaves it, and neither touches the
  -- module.
  pub remove_removes :
      (w : sys.World)
      → succeeded (sys.execute "dtoverlay" ("-r" ∷ overlay ∷ []) w).0 ≡ true
      → suc (applied (sys.execute "dtoverlay" ("-r" ∷ overlay ∷ []) w).1) ≡ applied w
  pub remove_fails :
      (w : sys.World)
      → succeeded (sys.execute "dtoverlay" ("-r" ∷ overlay ∷ []) w).0 ≡ false
      → applied (sys.execute "dtoverlay" ("-r" ∷ overlay ∷ []) w).1 ≡ applied w
  pub remove_keeps :
      (w : sys.World) → loaded (sys.execute "dtoverlay" ("-r" ∷ overlay ∷ []) w).1 ≡ loaded w
  -- To look and to wait changes neither.
  pub exists_keeps :
      (path : String) (w : sys.World)
      → (loaded (sys.exists path w).1 ≡ loaded w) × (applied (sys.exists path w).1 ≡ applied w)
  pub now_keeps :
      (w : sys.World) → (loaded (sys.now w).1 ≡ loaded w) × (applied (sys.now w).1 ≡ applied w)
  pub sleep_keeps :
      (n : ℕ) (w : sys.World)
      → (loaded (sys.sleep n w) ≡ loaded w) × (applied (sys.sleep n w) ≡ applied w)

-- The two commands that clean up are not refused where there is something to remove. Nothing is said
-- of them where there is nothing: `rmmod` of a module that is not loaded fails.
pub record RemovalWorks (sys : System) (module_file overlay : String)
    (k : Kernel sys module_file overlay) : Type 0 where
  pub rmmod_works :
      (w : sys.World)
      → k.loaded w ≡ true
      → succeeded (sys.execute "rmmod" (module_file ∷ []) w).0 ≡ true
  pub remove_works :
      (w : sys.World)
      → 0 < k.applied w
      → succeeded (sys.execute "dtoverlay" ("-r" ∷ overlay ∷ []) w).0 ≡ true

module _ (sys : System) (program : String) (arguments : List String) (w : sys.World) where
  pub run_command-world :
      (run_command sys program arguments w).1 ≡ (sys.execute program arguments w).1
  unfolding run_command command_output
  run_command-world = ground arith

  pub run_command-succeeds :
      succeeded (sys.execute program arguments w).0 ≡ true
      → (run_command sys program arguments w).0 ≡ ok tt
  unfolding run_command command_output
  run_command-succeeds h = ground (arith, h)

  pub run_command-ok :
      (run_command sys program arguments w).0 ≡ ok tt
      → succeeded (sys.execute program arguments w).0 ≡ true
  unfolding run_command command_output
  run_command-ok h = ground (arith, h)

  pub run_command-fails :
      ((run_command sys program arguments w).0 ≡ ok tt → ⊥)
      → succeeded (sys.execute program arguments w).0 ≡ false
  run_command-fails h = elim (Bool-cases (succeeded (sys.execute program arguments w).0)) [
    | inl done ↦ absurd (h (run_command-succeeds done))
    | inr failed ↦ failed
  ]
