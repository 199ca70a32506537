-- ===== src/VirtualDisplay/Serve.antt =====
-- src/bin/virtual-display.rs: `serve` and `main`. What is printed is not modelled; the clock is read
-- where the source reads it, since a reading may change the world.
pub mod Loop
pub mod Across
pub mod Clean
use raspberry_pi_i2c_target.Prelude.{
  add_u64, ℕ, zero, suc, ◌+◌, ◌==◌, Bool, true, false, Option, none, some, List, leb, length,
  if◌then◌else◌, Outcome, ok, err, panic, out_of_fuel, ErrorKind, Error, Bytes, ◌>?◌, ◌>!◌,
}
use raspberry_pi_i2c_target.Text.{String, ◌<>◌}
use raspberry_pi_i2c_target.Protocol.State.{DisplayController, controller_name}
use raspberry_pi_i2c_target.Driver.System.{System}
use raspberry_pi_i2c_target.Driver.Settings.{parse_address}
use raspberry_pi_i2c_target.Driver.Commands.{fails, require_root, infer_kernel_directory}
use raspberry_pi_i2c_target.Driver.Guard.{DriverGuard, load, unload, drop_guard}
use raspberry_pi_i2c_target.Driver.Finish.{finish_application}
use raspberry_pi_i2c_target.Driver.Existing.{unload_existing}
use raspberry_pi_i2c_target.VirtualDisplay.Options.{Options, parse, default_address}
use raspberry_pi_i2c_target.VirtualDisplay.Platform.{Platform}
use raspberry_pi_i2c_target.VirtualDisplay.Runtime.{DisplayRuntime, poll_idle, push_input, start}

-- The variables of `serve`'s loop.
pub record Serving : Type 0 where
  pub display : DisplayRuntime
  pub received_records : ℕ
  pub received_bytes : ℕ
  pub next_report : ℕ

module _ (f : Platform) where
  -- The lines behind `display.push`: the two reports, of which the second sets the time of the next.
  abbrev pub report : Serving → f.system.World → Outcome Serving × f.system.World
  report v w = f.system.now w >! λ now w.
      if v.received_records == 1
      then (ok v, w)
      else if leb v.next_report now
      then (ok (record v { next_report = now + 1000 }), w)
      else (ok v, w)

  abbrev pub count_record : Serving → Bytes → Serving
  count_record v input = record v {
    received_records = add_u64 v.received_records 1;
    received_bytes = add_u64 v.received_bytes (length input);
  }

  -- `Err(error) if …`, by the kind of the error.
  unfoldable pub read_failed :
      ErrorKind → Error → Serving → f.system.World → Outcome Serving × f.system.World
  read_failed ErrorKind.would_block error v w = poll_idle f v.display w >? λ display w.
      (ok (record v { display = display }), f.system.sleep 2 w)
  read_failed ErrorKind.interrupted error v w = (ok v, w)
  read_failed _ error v w = (err error, w)

  -- The body of the loop, of what `read` gives.
  unfoldable pub handle_read :
      Outcome Bytes → Serving → f.system.World → Outcome Serving × f.system.World
  handle_read (ok input) v w = push_input f v.display input w >? λ display w.
      report (count_record (record v { display = display }) input) w
  handle_read (err error) v w = read_failed error.kind error v w
  handle_read panic v w = (panic, w)
  handle_read out_of_fuel v w = (out_of_fuel, w)

  unfoldable pub serve_round : Serving → f.system.World → Outcome Serving × f.system.World
  serve_round v w = handle_read (f.read w).0 v (f.read w).1

  -- The loop of `serve`, for at most `rounds` rounds: it runs until a signal or the window stops it.
  unfoldable pub serve_loop :
      (rounds : ℕ) → Serving → f.system.World → Outcome Serving × f.system.World
  serve_loop zero v w = (out_of_fuel, w)
  serve_loop (suc rounds) v w = f.is_running w >! λ running w.
      if running then (serve_round v w >? λ v w. serve_loop rounds v w) else (ok v, w)

  unfoldable pub serve :
      (rounds : ℕ)
      → DisplayController
      → String
      → Option (ℕ × ℕ)
      → Bool
      → f.system.World
      → Outcome Serving × f.system.World
  serve rounds controller title button_outputs vsync w = f.open_target w >? λ _ w.
      start f controller title button_outputs vsync w >? λ display w. f.system.now w >! λ now w.
      serve_loop rounds
        (record {
          display = display;
          received_records = 0;
          received_bytes = 0;
          next_report = now + 1000;
        })
        w

  -- The lines of `main` behind `serve`.
  unfoldable pub finish_serving :
      Outcome Serving → DriverGuard → f.system.World → Outcome {0} Unit × f.system.World
  finish_serving = finish_application f.system "virtual display failed: "

  -- The lines of `main` behind `DriverGuard::load`.
  unfoldable pub serve_loaded :
      (rounds : ℕ)
      → DriverGuard
      → DisplayController
      → String
      → Options
      → f.system.World
      → Outcome {0} Unit × f.system.World
  serve_loaded rounds guard controller title options w =
      serve rounds controller title options.button_outputs options.vsync w >! λ served w.
      finish_serving served guard w

  abbrev title_or_default : DisplayController → Option String → String
  title_or_default controller none = "Virtual I2C display - " <> controller_name controller
  title_or_default controller (some title) = title

  unfoldable pub run_display :
      (rounds : ℕ)
      → Option DisplayController
      → Options
      → f.system.World
      → Outcome {0} Unit × f.system.World
  run_display rounds none options w = (panic, w)
  run_display rounds (some controller) options w =
      (parse_address options.address default_address, w) >? λ address w.
      infer_kernel_directory f.system options.kernel_directory w >? λ kernel_directory w.
      load f.system kernel_directory address options.idle_pull none w >? λ guard w.
      serve_loaded rounds guard controller (title_or_default controller options.title) options w

  -- `main`, of the arguments behind the program's name; `fuel` bounds the overlays to remove.
  unfoldable pub main :
      (fuel rounds : ℕ) → List String → f.system.World → Outcome {0} Unit × f.system.World
  main fuel rounds arguments w = (parse arguments, w) >? λ options w.
      require_root f.system w >? λ _ w.
      if options.unload
      then (unload_existing f.system fuel w >? λ _ w. (ok tt, w))
      else run_display rounds options.display options w
