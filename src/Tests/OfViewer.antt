-- ===== src/Tests/OfViewer.antt =====
-- A whole run of src/bin/virtual-display.rs: the driver starts, nothing is received, the window is
-- closed, and the driver is removed.
use raspberry_pi_i2c_target.Prelude.{
  false, ◌≡◌, ◌≢◌, refl, ◌∙◌, sym, some, ok, err, out_of_fuel, ErrorKind,
}
use raspberry_pi_i2c_target.Text.{
  equals, contains_text, strip_prefix, begins_with, words_from, is_space, parse_unsigned,
  parse_digits, digit_value,
}
use raspberry_pi_i2c_target.Tests.Sample.{bare, platform}
use raspberry_pi_i2c_target.Driver.Settings.{
  IdlePull, module_name, second_overlay, parse_address, validate_ready_gpio, contains,
  overlay_parameter,
}
use raspberry_pi_i2c_target.Driver.Commands.{
  run_command, command_output, active_overlays, overlay_is_active, any_equals, compare_sources,
  newer_source, newer_than, infer_kernel_directory, ensure_artifacts_current,
}
use raspberry_pi_i2c_target.Driver.Finish.{finish_application}
use raspberry_pi_i2c_target.Driver.Guard.{
  detect, ensure_unloaded, load, load_configured, start_driver, insert_module, await_device,
  wait_a_second, wait_for_device, unload, unload_overlay, drop_guard,
}
use raspberry_pi_i2c_target.Driver.Guard.Cleanup.{IsClean}
use raspberry_pi_i2c_target.Protocol.State.{DisplayController}
use raspberry_pi_i2c_target.Buttons.{equal_states, equal_flags}
use raspberry_pi_i2c_target.Buttons.Outputs.{request_lines, set_outputs}
use raspberry_pi_i2c_target.VirtualDisplay.Platform.{Platform}
use raspberry_pi_i2c_target.VirtualDisplay.Options.{Options}
use raspberry_pi_i2c_target.VirtualDisplay.Runtime.{start, poll_idle, poll_input, render_late}
use raspberry_pi_i2c_target.VirtualDisplay.Serve.{
  read_failed, handle_read, serve_round, serve_loop, serve, finish_serving, serve_loaded,
  run_display,
}
use raspberry_pi_i2c_target.VirtualDisplay.Serve.Clean.{PlatformKeeps, run_display-Cleans}
use raspberry_pi_i2c_target.Tests.OfRuns.{board, kernel, removal, bystanders, bare-IsClean}

-- The sample platform on this board, where nothing is received.
abbrev viewer : Platform
viewer = record {
  system = board;
  open_target = λ w. (ok tt, w);
  read = λ w. (err (record { kind = ErrorKind.would_block; message = "" }), w);
  open_window = platform.open_window;
  render = platform.render;
  poll_input = platform.poll_input;
  chip = platform.chip;
  is_running = platform.is_running;
  stop = platform.stop;
}

platform_keeps : PlatformKeeps viewer second_overlay kernel
unfolding kernel
platform_keeps = record {
  open_keeps = λ w. refl;
  read_keeps = λ w. refl;
  window_keeps = λ title vsync w. refl;
  render_keeps = λ b w. refl;
  poll_keeps = λ w. refl;
  chip_keeps = λ path w. refl;
  request_keeps = λ number request w. refl;
  values_keeps = λ descriptor number v w. refl;
  running_keeps = λ w. refl;
  stop_keeps = λ w. refl;
}

abbrev options : Options
options = record {
  unload = false;
  display = some DisplayController.sh1106;
  title = some "Display";
  button_outputs = some (5, 26);
  vsync = false;
  address = some "0x3c";
  kernel_directory = some "/kernel";
  idle_pull = IdlePull.up;
}

finishes : (run_display viewer 2 options.display options bare).0 ≡ ok tt
unfolding run_display serve_loaded finish_serving serve serve_loop serve_round handle_read
    read_failed start request_lines set_outputs poll_idle poll_input render_late load
    load_configured detect ensure_unloaded ensure_artifacts_current start_driver insert_module
    await_device wait_a_second wait_for_device finish_application unload unload_overlay drop_guard
    run_command command_output active_overlays overlay_is_active any_equals words_from is_space
    compare_sources newer_source newer_than infer_kernel_directory parse_address validate_ready_gpio
    contains equals contains_text strip_prefix begins_with parse_unsigned parse_digits digit_value
    overlay_parameter equal_states equal_flags
finishes = refl

returned : (run_display viewer 2 options.display options bare).0 ≢ out_of_fuel
returned e = let other : ok tt ≡ out_of_fuel = sym finishes ∙ e in cc

run_display-Cleans_example :
    IsClean board module_name second_overlay kernel
      (run_display viewer 2 options.display options bare).1
run_display-Cleans_example =
    run_display-Cleans viewer second_overlay kernel removal bystanders platform_keeps 2
      options.display options bare bare-IsClean returned
