-- ===== src/VirtualDisplay/Serve/Clean.antt =====
-- src/bin/virtual-display.rs: what `run_display` leaves in the kernel.
use raspberry_pi_i2c_target.Prelude.{
  ℕ, Bool, ◌≡◌, ◌≢◌, refl, arith, ◌∙◌, Option, none, some, out_of_fuel, Bytes,
}
use raspberry_pi_i2c_target.Text.{String}
use raspberry_pi_i2c_target.Buttons.Outputs.{LineValues, LineRequest}
use raspberry_pi_i2c_target.Driver.Settings.{module_name, parse_address}
use raspberry_pi_i2c_target.Driver.Kernel.{Kernel, RemovalWorks}
use raspberry_pi_i2c_target.Driver.Commands.{infer_kernel_directory}
use raspberry_pi_i2c_target.Driver.Guard.Cleanup.{IsClean}
use raspberry_pi_i2c_target.Driver.Guard.Presence.{
  presence, Bystanders, absent_both, infer_kernel_directory-keeps,
}
use raspberry_pi_i2c_target.Driver.Finish.Runs.{>?-Cleans, run-Cleans}
use raspberry_pi_i2c_target.Protocol.State.{DisplayController}
use raspberry_pi_i2c_target.VirtualDisplay.Options.{Options, default_address}
use raspberry_pi_i2c_target.VirtualDisplay.Platform.{Platform}
use raspberry_pi_i2c_target.VirtualDisplay.Serve.{
  serve, finish_serving, serve_loaded, title_or_default, run_display,
}
use raspberry_pi_i2c_target.VirtualDisplay.Serve.Across.{Across, serve-reaches}

-- To use the device, the window and the GPIO lines neither loads nor removes the module or the
-- overlay.
pub record PlatformKeeps (f : Platform) (o : String) (k : Kernel f.system module_name o)
    : Type 0 where
  pub open_keeps :
      (w : f.system.World)
      → presence f.system module_name o k (f.open_target w).1 ≡ presence f.system module_name o k w
  pub read_keeps :
      (w : f.system.World)
      → presence f.system module_name o k (f.read w).1 ≡ presence f.system module_name o k w
  pub window_keeps :
      (title : String) (vsync : Bool) (w : f.system.World)
      → presence f.system module_name o k (f.open_window title vsync w).1
        ≡ presence f.system module_name o k w
  pub render_keeps :
      (b : Bytes) (w : f.system.World)
      → presence f.system module_name o k (f.render b w).1 ≡ presence f.system module_name o k w
  pub poll_keeps :
      (w : f.system.World)
      → presence f.system module_name o k (f.poll_input w).1 ≡ presence f.system module_name o k w
  pub chip_keeps :
      (path : String) (w : f.system.World)
      → presence f.system module_name o k (f.chip.open_chip path w).1
        ≡ presence f.system module_name o k w
  pub request_keeps :
      (number : ℕ) (request : LineRequest) (w : f.system.World)
      → presence f.system module_name o k (f.chip.get_lines number request w).1
        ≡ presence f.system module_name o k w
  pub values_keeps :
      (descriptor number : ℕ) (v : LineValues) (w : f.system.World)
      → presence f.system module_name o k (f.chip.set_values descriptor number v w).1
        ≡ presence f.system module_name o k w
  pub running_keeps :
      (w : f.system.World)
      → presence f.system module_name o k (f.is_running w).1 ≡ presence f.system module_name o k w
  pub stop_keeps :
      (w : f.system.World)
      → presence f.system module_name o k (f.stop w) ≡ presence f.system module_name o k w

-- So `serve` keeps what is there.
presence_across :
    (f : Platform) (o : String) (k : Kernel f.system module_name o) → PlatformKeeps f o k → Across f
presence_across f o k u =
    let seen = presence f.system module_name o k in
    record {
      Reaches = λ w v. seen v ≡ seen w;
      stays = λ w. refl;
      then = λ u v w first second. second ∙ first;
      by_now = λ w. ground (arith, k.now_keeps w);
      by_sleep = λ n w. ground (arith, k.sleep_keeps n w);
      by_open = u.open_keeps;
      by_read = u.read_keeps;
      by_window = u.window_keeps;
      by_render = u.render_keeps;
      by_poll = u.poll_keeps;
      by_chip = u.chip_keeps;
      by_request = u.request_keeps;
      by_values = u.values_keeps;
      by_running = u.running_keeps;
      by_stop = u.stop_keeps;
    }

-- Where the commands that remove are not refused if there is something to remove, and to read
-- files, to list the overlays and to use the device, the window and the GPIO lines loads and
-- removes nothing: a run of `run_display`, which is `main` behind the test of `--unload`, that
-- starts with neither the module nor the board's overlay there, and ends, ends with neither
-- there, whatever check refuses it, whichever command that loads fails while it starts, and
-- however `serve` returns or panics.
pub run_display-Cleans :
    (f : Platform) (o : String) (k : Kernel f.system module_name o)
    (works : RemovalWorks f.system module_name o k)
    → Bystanders f.system o k
    → PlatformKeeps f o k
    → (rounds : ℕ) (controller : Option DisplayController) (options : Options) (w : f.system.World)
    → IsClean f.system module_name o k w
    → (run_display f rounds controller options w).0 ≢ out_of_fuel
    → IsClean f.system module_name o k (run_display f rounds controller options w).1
unfolding run_display serve_loaded finish_serving presence_across
run_display-Cleans f o k works b u rounds none options w (unloaded, bare) = λ _. (unloaded, bare)
run_display-Cleans f o k works b u rounds (some controller) options w (unloaded, bare) =
    >?-Cleans f.system o k works b (parse_address options.address default_address, w) _
      (absent_both f.system o k b w unloaded bare)
      λ address w clean.
        >?-Cleans f.system o k works b (infer_kernel_directory f.system options.kernel_directory w)
          _ (infer_kernel_directory-keeps f.system o k b options.kernel_directory w ∙ clean)
          λ directory w clean.
            run-Cleans f.system o k works b
              (serve f rounds controller (title_or_default f controller options.title)
                options.button_outputs options.vsync)
              (serve-reaches f (presence_across f o k u) rounds controller
                (title_or_default f controller options.title) options.button_outputs options.vsync)
              "virtual display failed: " directory address options.idle_pull none w clean
