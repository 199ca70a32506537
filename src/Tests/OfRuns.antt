-- ===== src/Tests/OfRuns.antt =====
-- A whole run of src/bin/target-driver.rs: the driver starts, one record is answered, a signal comes,
-- and the driver is removed.
use raspberry_pi_i2c_target.Prelude.{
  ◌<◌, not, true, false, ◌≡◌, ◌≢◌, refl, arith, ◌∙◌, sym, some, ok, out_of_fuel, if◌then◌else◌,
}
use raspberry_pi_i2c_target.Text.{
  equals, contains_text, strip_prefix, begins_with, words_from, is_space, parse_unsigned,
  parse_digits, digit_value,
}
use raspberry_pi_i2c_target.Tests.Sample.{
  Sample, bare, system, device, count, attempt-removes, attempt-removes_one, attempt-adds_one,
  attempt-works, attempt-fails, attempt-keeps,
}
use raspberry_pi_i2c_target.Driver.Settings.{
  IdlePull, module_name, second_overlay, parse_address, validate_ready_gpio, contains,
  overlay_parameter,
}
use raspberry_pi_i2c_target.Driver.Commands.{
  run_command, command_output, active_overlays, overlay_is_active, any_equals, compare_sources,
  newer_source, newer_than, infer_kernel_directory, ensure_artifacts_current,
}
use raspberry_pi_i2c_target.Driver.Finish.{finish_application}
use raspberry_pi_i2c_target.Driver.System.{System}
use raspberry_pi_i2c_target.Driver.Kernel.{Kernel, RemovalWorks}
use raspberry_pi_i2c_target.Driver.Guard.{
  DriverConfiguration, detect, ensure_unloaded, load, load_configured, start_driver, insert_module,
  await_device, wait_a_second, wait_for_device, unload, unload_overlay, drop_guard,
}
use raspberry_pi_i2c_target.Driver.Guard.Cleanup.{IsClean}
use raspberry_pi_i2c_target.Driver.Guard.Presence.{Bystanders}
use raspberry_pi_i2c_target.Responder.Options.{Options}
use raspberry_pi_i2c_target.Responder.Device.{Device}
use raspberry_pi_i2c_target.Responder.Serve.{
  serve, respond, serve_loop, handle_read, handle_request, response, queue_response, queue_loop,
  after_write, write_failed, read_failed,
}
use raspberry_pi_i2c_target.Responder.Serve.Queue.{Patience}
use raspberry_pi_i2c_target.Responder.Serve.Ends.{Signal, serve-ends}
use raspberry_pi_i2c_target.Responder.Serve.Clean.{DeviceKeeps, respond-Cleans}

-- The sample system, where the device is there with the module.
abbrev pub board : System
board = record system { exists = λ path w. (w.loaded, w) }

-- The flag is cleared behind the first test.
abbrev responder : Device
responder = record {
  system = board;
  open_target = λ writable w. (ok tt, w);
  read = device.read;
  write = device.write;
  is_running = λ w. (w.running, record w { running = false });
}

unfoldable pub kernel : Kernel board module_name second_overlay
unfolding equals
kernel = record {
  loaded = λ w. w.loaded;
  applied = count;
  apply_keeps =
      λ rest w. attempt-keeps (λ v. v.loaded) (not w.applied) (record w { applied = true }) w refl;
  apply_fails = λ rest w e. attempt-fails count (not w.applied) (record w { applied = true }) w e;
  apply_adds =
      λ directory rest w e. attempt-adds_one w.applied (record w { applied = true }) w refl refl e;
  insmod_keeps = λ arguments w. refl;
  insmod_fails = λ arguments w e. cc;
  insmod_adds = λ directory w e. refl;
  rmmod_removes = λ w e. attempt-removes w.loaded (record w { loaded = false }) w refl e;
  rmmod_fails = λ w e. attempt-fails (λ v. v.loaded) w.loaded (record w { loaded = false }) w e;
  rmmod_keeps = λ w. attempt-keeps count w.loaded (record w { loaded = false }) w refl;
  remove_removes =
      λ w e. attempt-removes_one w.applied (record w { applied = false }) w refl refl e;
  remove_fails = λ w e. attempt-fails count w.applied (record w { applied = false }) w e;
  remove_keeps = λ w. attempt-keeps (λ v. v.loaded) w.applied (record w { applied = false }) w refl;
  exists_keeps = λ path w. (refl, refl);
  now_keeps = λ w. (refl, refl);
  sleep_keeps = λ n w. (refl, refl);
}

unfoldable pub removal : RemovalWorks board module_name second_overlay kernel
unfolding equals kernel
removal = record {
  rmmod_works = λ w e. rw e refl;
  remove_works = λ w e. attempt-works w.applied (record w { applied = false }) w e;
}

fourth :
    (c : DriverConfiguration) (w : Sample) → (detect board w).0 ≡ ok c → c.overlay ≡ second_overlay
unfolding detect contains_text strip_prefix begins_with
fourth c w e = cc

pub bystanders : Bystanders board second_overlay kernel
unfolding kernel equals detect
bystanders = record {
  listing_keeps = λ w. refl;
  is_file_keeps = λ path w. refl;
  modified_keeps = λ path w. refl;
  read_keeps = λ path w. refl;
  canonicalize_keeps = λ path w. refl;
  exe_keeps = λ w. refl;
  is_dir_keeps = λ path w. refl;
  board = λ c w e. fourth c w e;
}

device_keeps : DeviceKeeps responder second_overlay kernel
unfolding kernel
device_keeps = record {
  open_keeps = λ writable w. refl;
  read_keeps = λ w. refl;
  write_keeps = λ b w. refl;
  running_keeps = λ w. refl;
}

abbrev patience : Patience responder
patience = record {
  time = λ w. w.time;
  interruptions = λ w. 0;
  reads = λ w. (refl, omega arith);
  now_leaves = λ w. omega arith;
  sleeps = λ n w. omega arith;
  sleep_leaves = λ n w. omega arith;
  write_time = λ b w. omega arith;
  write_leaves = λ b w. tt;
}

unfoldable signal : Signal responder patience
signal = record {
  remaining = λ w. if w.running then 1 else 0;
  found_set = λ w e. rw e (omega arith);
  running_leaves = λ w. (omega arith, omega arith);
  now_leaves = λ w. omega arith;
  sleep_leaves = λ n w. omega arith;
  write_leaves = λ b w. (omega arith, omega arith);
  read_leaves = λ w. (omega arith, omega arith);
  open_leaves = λ writable w. (omega arith, omega arith);
  read_returns = λ w e. cc;
  open_returns = λ writable w e. cc;
}

signal_near : signal.remaining bare < 2
unfolding signal
signal_near = omega arith

serve-ends_example : (serve responder 2 2501 false bare).0 ≢ out_of_fuel
serve-ends_example =
    serve-ends responder patience signal 2 2501 false bare signal_near (omega arith)

abbrev options : Options
options = record {
  unload = false;
  receive_only = false;
  address = some "0x13";
  kernel_directory = some "/kernel";
  idle_pull = IdlePull.up;
  ready_gpio = some 17;
}

pub bare-IsClean : IsClean board module_name second_overlay kernel bare
unfolding kernel
bare-IsClean = (refl, refl)

finishes : (respond responder 2 3 options bare).0 ≡ ok tt
unfolding respond serve serve_loop handle_read handle_request response queue_response queue_loop
    after_write write_failed load load_configured detect ensure_unloaded ensure_artifacts_current
    start_driver insert_module await_device wait_a_second wait_for_device finish_application unload
    unload_overlay drop_guard run_command command_output active_overlays overlay_is_active
    any_equals words_from is_space compare_sources newer_source newer_than infer_kernel_directory
    parse_address validate_ready_gpio contains equals contains_text strip_prefix begins_with
    parse_unsigned parse_digits digit_value overlay_parameter read_failed
finishes = refl

returned : (respond responder 2 3 options bare).0 ≢ out_of_fuel
returned e = let other : ok tt ≡ out_of_fuel = sym finishes ∙ e in cc

respond-Cleans_example :
    IsClean board module_name second_overlay kernel (respond responder 2 3 options bare).1
respond-Cleans_example =
    respond-Cleans responder second_overlay kernel removal bystanders device_keeps 2 3 options bare
      bare-IsClean returned
