-- ===== src/Responder/Serve/Clean.antt =====
-- src/bin/target-driver.rs: what `respond` leaves in the kernel.
use raspberry_pi_i2c_target.Prelude.{
  ℕ, Bool, not, ◌&&◌, ◌≡◌, ◌≢◌, refl, arith, ◌∙◌, out_of_fuel, Bytes, Bool-cases, inl, inr,
}
use raspberry_pi_i2c_target.Text.{String}
use raspberry_pi_i2c_target.CommandLine.{is_given}
use raspberry_pi_i2c_target.Driver.Settings.{module_name, parse_address}
use raspberry_pi_i2c_target.Driver.Kernel.{Kernel, RemovalWorks}
use raspberry_pi_i2c_target.Driver.Commands.{infer_kernel_directory}
use raspberry_pi_i2c_target.Driver.Guard.Cleanup.{IsClean}
use raspberry_pi_i2c_target.Driver.Guard.Presence.{
  presence, Bystanders, absent_both, infer_kernel_directory-keeps,
}
use raspberry_pi_i2c_target.Driver.Finish.Runs.{>?-Cleans, run-Cleans}
use raspberry_pi_i2c_target.Responder.Options.{Options, default_address}
use raspberry_pi_i2c_target.Responder.Device.{Device}
use raspberry_pi_i2c_target.Responder.Serve.Across.{Across, serve-reaches}
use raspberry_pi_i2c_target.Responder.Serve.{serve, respond}

-- To use the device of a loaded module neither loads nor removes it.
pub record DeviceKeeps (d : Device) (o : String) (k : Kernel d.system module_name o) : Type 0 where
  pub open_keeps :
      (writable : Bool) (w : d.system.World)
      → presence d.system module_name o k (d.open_target writable w).1
        ≡ presence d.system module_name o k w
  pub read_keeps :
      (w : d.system.World)
      → presence d.system module_name o k (d.read w).1 ≡ presence d.system module_name o k w
  pub write_keeps :
      (b : Bytes) (w : d.system.World)
      → presence d.system module_name o k (d.write b w).1 ≡ presence d.system module_name o k w
  pub running_keeps :
      (w : d.system.World)
      → presence d.system module_name o k (d.is_running w).1 ≡ presence d.system module_name o k w

-- So `serve` keeps what is there.
presence_across :
    (d : Device) (o : String) (k : Kernel d.system module_name o) → DeviceKeeps d o k → Across d
presence_across d o k u =
    let seen = presence d.system module_name o k in
    record {
      Reaches = λ w v. seen v ≡ seen w;
      stays = λ w. refl;
      then = λ u v w first second. second ∙ first;
      by_now = λ w. ground (arith, k.now_keeps w);
      by_sleep = λ n w. ground (arith, k.sleep_keeps n w);
      by_open = u.open_keeps;
      by_read = u.read_keeps;
      by_write = u.write_keeps;
      by_running = u.running_keeps;
    }

-- Where the commands that remove are not refused if there is something to remove, and to read
-- files, to list the overlays and to use the device loads and removes nothing: a run of
-- `respond`, which is `main` behind the test of `--unload`, that starts with neither the module
-- nor the board's overlay there, and ends, ends with neither there, whatever check refuses it,
-- whichever command that loads fails while it starts, and however `serve` returns or panics.
pub respond-Cleans :
    (d : Device) (o : String) (k : Kernel d.system module_name o)
    (works : RemovalWorks d.system module_name o k)
    → Bystanders d.system o k
    → DeviceKeeps d o k
    → (rounds fuel : ℕ) (options : Options) (w : d.system.World)
    → IsClean d.system module_name o k w
    → (respond d rounds fuel options w).0 ≢ out_of_fuel
    → IsClean d.system module_name o k (respond d rounds fuel options w).1
unfolding respond presence_across
respond-Cleans d o k works b u rounds fuel options w (unloaded, bare) =
    let clean = absent_both d.system o k b w unloaded bare in
    elim (Bool-cases (not options.receive_only && not (is_given options.ready_gpio))) [
      | inl refused ↦ rw refused (λ _. (unloaded, bare))
      | inr accepted ↦ rw accepted (
          >?-Cleans d.system o k works b (parse_address options.address default_address, w) _ clean
            λ address w clean.
              >?-Cleans d.system o k works b
                (infer_kernel_directory d.system options.kernel_directory w) _
                (infer_kernel_directory-keeps d.system o k b options.kernel_directory w ∙ clean)
                λ directory w clean.
                  run-Cleans d.system o k works b (serve d rounds fuel options.receive_only)
                    (serve-reaches d (presence_across d o k u) rounds fuel options.receive_only)
                    "target failed: " directory address options.idle_pull options.ready_gpio w
                    clean)
    ]
