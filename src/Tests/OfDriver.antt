-- ===== src/Tests/OfDriver.antt =====
-- src/kernel_target.rs on the sample system.
use raspberry_pi_i2c_target.Prelude.{true, ◌≡◌, refl, arith, [], ◌∷◌, ok, some}
use raspberry_pi_i2c_target.Text.{◌<>◌, hex}
use raspberry_pi_i2c_target.Tests.Sample.{Sample, bare, system, kernel, removal}
use raspberry_pi_i2c_target.Driver.Settings.{parse_address}
use raspberry_pi_i2c_target.Driver.Settings.Bounds.{parse_address-hex}
use raspberry_pi_i2c_target.Driver.Guard.{
  DriverConfiguration, DriverGuard, fresh_guard, start_driver, unload,
}
use raspberry_pi_i2c_target.Driver.Guard.Cleanup.{
  IsClean, Covers, Leaves, start_driver-Leaves, unload-IsClean,
}

parse_address-hex_example : parse_address (some ("0x" <> hex 60)) 19 ≡ ok 60
parse_address-hex_example = parse_address-hex 60 19 (omega arith) (omega arith)

abbrev profile : DriverConfiguration
profile = record {
  hardware_name = "Sample";
  model_contains = "Raspberry Pi";
  overlay = "o";
  module_file = "m";
  device = "/dev/sample";
  target_pins = [];
}

-- The device never appears here, so that the module and the overlay have to be removed again.
bare-IsClean : IsClean system "m" "o" kernel bare
unfolding kernel
bare-IsClean = (refl, refl)

start_driver-Leaves_example : Leaves system "m" "o" kernel (
    start_driver system
      (fresh_guard profile)
      "/kernel"
      ("-d" ∷ "/kernel" ∷ "o" ∷ [])
      "/dev/sample"
      bare)
start_driver-Leaves_example =
    start_driver-Leaves system "m" "o" kernel removal profile "/kernel" "/dev/sample" [] bare refl
      refl bare-IsClean

abbrev guard : DriverGuard
guard = record (fresh_guard profile) { overlay_loaded = true; module_loaded = true }

abbrev busy : Sample
busy = record bare { loaded = true; applied = true }

guard-Covers : Covers system "m" "o" kernel guard busy
unfolding kernel
guard-Covers = (refl, refl, refl, refl)

unload-IsClean_example :
    ((unload system guard busy).0 ≡ ok tt)
    × IsClean system "m" "o" kernel (unload system guard busy).1.1
unload-IsClean_example = unload-IsClean system "m" "o" kernel removal guard busy guard-Covers
