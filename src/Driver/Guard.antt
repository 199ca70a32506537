-- ===== src/Driver/Guard.antt =====
-- src/kernel_target.rs: `Hardware`, `DriverConfiguration`, `DriverGuard`, and the two functions that
-- unload what an earlier run left.
pub mod Cleanup
pub mod Presence
pub mod Loads
use raspberry_pi_i2c_target.Prelude.{
  ℕ, zero, suc, ◌+◌, Bool, true, false, not, ◌&&◌, Option, none, some, List, [], ◌∷◌, ◌++◌, leb,
  if◌then◌else◌, Outcome, ok, err, panic, out_of_fuel, ErrorKind, Error, ◌>?◌, ◌>!◌,
}
use raspberry_pi_i2c_target.Text.{String, ◌<>◌, contains_text, decimal, hex}
use raspberry_pi_i2c_target.Driver.Settings.{
  device, module_name, first_overlay, second_overlay, IdlePull, overlay_parameter,
  validate_ready_gpio,
}
use raspberry_pi_i2c_target.Driver.System.{System}
use raspberry_pi_i2c_target.Driver.Commands.{
  fails, join, overlay_is_active, run_command, active_overlays, ensure_artifacts_current,
}

-- `Hardware` is the part of it that `load` passes on.
pub record DriverConfiguration : Type 0 where
  pub hardware_name : String
  pub model_contains : String
  pub overlay : String
  pub module_file : String
  pub device : String
  pub target_pins : List ℕ

abbrev pub pi3 : DriverConfiguration
pi3 = record {
  hardware_name = "Raspberry Pi 3";
  model_contains = "Raspberry Pi 3 Model B";
  overlay = first_overlay;
  module_file = module_name;
  device = device;
  target_pins = 18 ∷ 19 ∷ [];
}

abbrev pub pi4 : DriverConfiguration
pi4 = record {
  hardware_name = "Raspberry Pi 4";
  model_contains = "Raspberry Pi 4 Model B";
  overlay = second_overlay;
  module_file = module_name;
  device = device;
  target_pins = 10 ∷ 11 ∷ [];
}

pub record DriverGuard : Type 0 where
  pub hardware_name : String
  pub module_file : String
  pub overlay : String
  pub overlay_loaded : Bool
  pub module_loaded : Bool

-- `call()?;` in a method that changes the guard, and the rest.
abbrev pub with_guard :
    {W : Type 0}
    → DriverGuard
    → Outcome {0} Unit × W
    → (W → Outcome {0} Unit × (DriverGuard × W))
    → Outcome {0} Unit × (DriverGuard × W)
with_guard g (ok a, w) f = f w
with_guard g (err e, w) f = (err e, (g, w))
with_guard g (panic, w) f = (panic, (g, w))
with_guard g (out_of_fuel, w) f = (out_of_fuel, (g, w))

-- A second, in steps of ten milliseconds.
abbrev pub wait_fuel : ℕ
wait_fuel = 102

abbrev ready_parameter : Option ℕ → List String
ready_parameter none = []
ready_parameter (some gpio) = ("ready_gpio=" <> decimal gpio) ∷ []

abbrev pub fresh_guard : DriverConfiguration → DriverGuard
fresh_guard c = record {
  hardware_name = c.hardware_name;
  module_file = c.module_file;
  overlay = c.overlay;
  overlay_loaded = false;
  module_loaded = false;
}

abbrev overlay_arguments : String → DriverConfiguration → ℕ → IdlePull → Option ℕ → List String
overlay_arguments kernel_directory c address idle_pull ready_gpio =
    ("-d"
      ∷ kernel_directory
      ∷ c.overlay
      ∷ ("addr=0x" <> hex address)
      ∷ overlay_parameter idle_pull
      ∷ [])
    ++ ready_parameter ready_gpio

module _ (sys : System) where
  -- `Hardware::detect`
  unfoldable pub detect : sys.World → Outcome DriverConfiguration × sys.World
  detect w = sys.read_text "/proc/device-tree/model" w >? λ model w.
      if contains_text model "Raspberry Pi 3 Model B"
      then (ok pi3, w)
      else if contains_text model "Raspberry Pi 4 Model B"
      then (ok pi4, w)
      else (
        fails ErrorKind.unsupported
            ("kernel target supports Pi 3B/3B+ and Pi 4B; detected " <> sys.debug_model model),
        w,
      )

  abbrev overlay_test : DriverConfiguration → String → Outcome {0} Unit
  overlay_test configuration overlays =
      if overlay_is_active overlays configuration.overlay
      then fails ErrorKind.already_exists "a BSC target overlay is already active; unload it first"
      else ok tt

  abbrev already_loaded : Outcome {0} Unit
  already_loaded =
      fails ErrorKind.already_exists
        "target module is already loaded; unload it before starting the app"

  unfoldable pub ensure_unloaded : DriverConfiguration → sys.World → Outcome {0} Unit × sys.World
  ensure_unloaded configuration w = sys.exists configuration.device w >! λ has_device w.
      if has_device
      then (already_loaded, w)
      else sys.exists (join "/sys/module" configuration.module_file) w >! λ has_module w.
          if has_module
          then (already_loaded, w)
          else active_overlays sys w >? λ overlays w. (overlay_test configuration overlays, w)

  -- The second half of `DriverGuard::unload`.
  unfoldable pub unload_overlay :
      DriverGuard → sys.World → Outcome {0} Unit × (DriverGuard × sys.World)
  unload_overlay g w =
      if g.overlay_loaded
      then with_guard g (run_command sys "dtoverlay" ("-r" ∷ g.overlay ∷ []) w)
          (λ w. (ok tt, (record g { overlay_loaded = false }, w)))
      else (ok tt, (g, w))

  -- `DriverGuard::unload`
  unfoldable pub unload : DriverGuard → sys.World → Outcome {0} Unit × (DriverGuard × sys.World)
  unload g w =
      if g.module_loaded
      then with_guard g (run_command sys "rmmod" (g.module_file ∷ []) w)
          (unload_overlay (record g { module_loaded = false }))
      else unload_overlay g w

  -- `Drop::drop`; the warning that it prints is not modelled.
  unfoldable pub drop_guard : DriverGuard → sys.World → sys.World
  drop_guard g w = (unload g w).1.1

  -- The end of `load_configured`: the guard leaves with the value, or is dropped with the error.
  abbrev pub or_drop :
      DriverGuard
      → Outcome {0} Unit × sys.World
      → (sys.World → Outcome DriverGuard × sys.World)
      → Outcome DriverGuard × sys.World
  or_drop g (ok a, w) f = f w
  or_drop g (err e, w) f = (err e, drop_guard g w)
  or_drop g (panic, w) f = (panic, drop_guard g w)
  or_drop g (out_of_fuel, w) f = (out_of_fuel, w)

  -- The `while !configuration.device.exists()`, on fuel.
  unfoldable pub wait_for_device :
      (fuel : ℕ) (path : String) (deadline : ℕ) → sys.World → Outcome {0} Unit × sys.World
  wait_for_device zero path deadline w = (out_of_fuel, w)
  wait_for_device (suc fuel) path deadline w = sys.exists path w >! λ has_device w.
      if has_device
      then (ok tt, w)
      else sys.now w >! λ time w.
          if leb deadline time
          then (fails ErrorKind.timed_out (path <> " was not created after loading the module"), w)
          else wait_for_device fuel path deadline (sys.sleep 10 w)

  unfoldable pub wait_a_second : String → sys.World → Outcome {0} Unit × sys.World
  wait_a_second path w = sys.now w >! λ start w. wait_for_device wait_fuel path (start + 1000) w

  -- The lines of `load_configured` behind `guard.module_loaded = true`.
  unfoldable pub await_device :
      DriverGuard → (path : String) → sys.World → Outcome DriverGuard × sys.World
  await_device g path w = or_drop g (wait_a_second path w) λ w. (ok g, w)

  -- The lines behind `guard.overlay_loaded = true`.
  unfoldable pub insert_module :
      DriverGuard → (kernel_directory path : String) → sys.World → Outcome DriverGuard × sys.World
  insert_module g kernel_directory path w =
      or_drop g (run_command sys "insmod" (join kernel_directory (g.module_file <> ".ko") ∷ []) w)
        (await_device (record g { module_loaded = true }) path)

  -- The lines behind the guard's creation.
  unfoldable pub start_driver :
      DriverGuard
      → (kernel_directory : String) (arguments : List String) (path : String) → sys.World
      → Outcome DriverGuard × sys.World
  start_driver g kernel_directory arguments path w =
      or_drop g (run_command sys "dtoverlay" arguments w)
        (insert_module (record g { overlay_loaded = true }) kernel_directory path)

  unfoldable pub load_configured :
      String
      → DriverConfiguration
      → ℕ
      → IdlePull
      → Option ℕ
      → sys.World
      → Outcome DriverGuard × sys.World
  load_configured kernel_directory c address idle_pull ready_gpio w =
      sys.read_text "/proc/device-tree/model" w >? λ model w.
      if not (contains_text model c.model_contains)
      then (
        fails ErrorKind.unsupported
            ("profile expects " <> c.hardware_name <> " but detected " <> sys.debug_model model),
        w,
      )
      else (validate_ready_gpio c.hardware_name c.target_pins ready_gpio, w) >? λ _ w.
          ensure_unloaded c w >? λ _ w.
          ensure_artifacts_current sys kernel_directory c.module_file c.overlay w >? λ _ w.
          start_driver (fresh_guard c) kernel_directory
            (overlay_arguments kernel_directory c address idle_pull ready_gpio) c.device w

  -- `DriverGuard::load`
  unfoldable pub load :
      String → ℕ → IdlePull → Option ℕ → sys.World → Outcome DriverGuard × sys.World
  load kernel_directory address idle_pull ready_gpio w = detect w >? λ hardware w.
      load_configured kernel_directory hardware address idle_pull ready_gpio w
