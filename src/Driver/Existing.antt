-- ===== src/Driver/Existing.antt =====
-- src/kernel_target.rs: `unload_existing` and `unload_existing_configured`.
use raspberry_pi_i2c_target.Prelude.{
  ℕ, zero, suc, ◌<◌, Bool, true, false, not, ◌&&◌, ◌≡◌, [], ◌∷◌, if◌then◌else◌, Outcome, ok, err,
  panic, out_of_fuel, ErrorKind, ◌>?◌, ◌>!◌,
}
use raspberry_pi_i2c_target.Text.{String, ◌<>◌}
use raspberry_pi_i2c_target.Driver.Settings.{device, module_name, first_overlay, second_overlay}
use raspberry_pi_i2c_target.Driver.System.{System}
use raspberry_pi_i2c_target.Driver.Commands.{
  fails, join, overlay_is_active, run_command, active_overlays,
}
use raspberry_pi_i2c_target.Driver.Guard.{DriverConfiguration}

-- The configuration that `unload_existing` writes out.
abbrev pub any_pi : DriverConfiguration
any_pi = record {
  hardware_name = "Raspberry Pi BSC target";
  model_contains = "Raspberry Pi";
  overlay = first_overlay;
  module_file = module_name;
  device = device;
  target_pins = [];
}

-- The list was written, and it names the overlay.
abbrev pub names : Outcome String → String → Bool
names (ok list) overlay = overlay_is_active list overlay
names (err e) overlay = false
names panic overlay = false
names out_of_fuel overlay = false

module _ (sys : System) where
  -- The `loop`, on fuel: one round for each active instance of the overlay, and one more.
  unfoldable pub remove_overlays : (fuel : ℕ) → String → Bool → sys.World → Outcome Bool × sys.World
  remove_overlays zero overlay changed w = (out_of_fuel, w)
  remove_overlays (suc fuel) overlay changed w = active_overlays sys w >? λ overlays w.
      if not (overlay_is_active overlays overlay)
      then (ok changed, w)
      else run_command sys "dtoverlay" ("-r" ∷ overlay ∷ []) w >? λ _ w.
          remove_overlays fuel overlay true w

  unfoldable pub remove_module :
      (fuel : ℕ) → DriverConfiguration → Bool → sys.World → Outcome Bool × sys.World
  remove_module fuel c module_loaded w =
      if module_loaded
      then (run_command sys "rmmod" (c.module_file ∷ []) w >? λ _ w.
          remove_overlays fuel c.overlay true w)
      else remove_overlays fuel c.overlay false w

  unfoldable pub unload_existing_configured :
      (fuel : ℕ) → DriverConfiguration → sys.World → Outcome Bool × sys.World
  unload_existing_configured fuel c w =
      sys.exists (join "/sys/module" c.module_file) w >! λ module_loaded w.
      sys.exists c.device w >! λ has_device w.
      if has_device && not module_loaded
      then (
        fails ErrorKind.other (
            c.device <> " exists but " <> c.module_file
            <> " is not loaded; refusing automatic cleanup"),
        w,
      )
      else remove_module fuel c module_loaded w

  unfoldable pub unload_existing : (fuel : ℕ) → sys.World → Outcome Bool × sys.World
  unload_existing fuel w = unload_existing_configured fuel any_pi w >? λ changed w.
      active_overlays sys w >? λ overlays w.
      if overlay_is_active overlays second_overlay
      then (run_command sys "dtoverlay" ("-r" ∷ second_overlay ∷ []) w >? λ _ w. (ok true, w))
      else (ok changed, w)

  -- What `dtoverlay` does for the loop: the list that `-l` writes names the overlay just when an
  -- instance is active, and a successful `-r` removes one.
  pub record Instances (overlay : String) : Type 0 where
    pub count : sys.World → ℕ
    pub listing_keeps : (w : sys.World) → count (active_overlays sys w).1 ≡ count w
    pub listed : (w : sys.World) → names (active_overlays sys w).0 overlay ≡ true → 0 < count w
    pub remove_one :
        (w : sys.World)
        → (run_command sys "dtoverlay" ("-r" ∷ overlay ∷ []) w).0 ≡ ok tt
        → 0 < count w
        → count (run_command sys "dtoverlay" ("-r" ∷ overlay ∷ []) w).1 < count w
    pub listing_ends : (w : sys.World) → (active_overlays sys w).0 ≡ out_of_fuel → ⊥
    pub remove_ends :
        (w : sys.World) → (run_command sys "dtoverlay" ("-r" ∷ overlay ∷ []) w).0 ≡ out_of_fuel → ⊥
