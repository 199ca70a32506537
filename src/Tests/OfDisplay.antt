-- ===== src/Tests/OfDisplay.antt =====
-- src/bin/virtual-display.rs on the sample platform.
use raspberry_pi_i2c_target.Prelude.{
  arith, err, ErrorKind, Error, true, false, Option, ◌≡◌, ◌≢◌, refl, [], ◌∷◌, List, Bytes, Outcome,
  ok, panic, out_of_fuel, some, none,
}
use raspberry_pi_i2c_target.Text.{
  String, equals, strip_prefix, begins_with, split_once, parse_digits, parse_unsigned, digit_value,
}
use raspberry_pi_i2c_target.Tests.Sample.{Sample, bare, system, kernel, removal, platform, screen}
use raspberry_pi_i2c_target.Protocol.State.{DisplayController, new}
use raspberry_pi_i2c_target.Protocol.Invariant.{new-IsWellFormed}
use raspberry_pi_i2c_target.Driver.Settings.{IdlePull}
use raspberry_pi_i2c_target.Driver.Guard.{DriverGuard}
use raspberry_pi_i2c_target.Driver.Guard.Cleanup.{IsClean, Covers}
use raspberry_pi_i2c_target.Buttons.Outputs.{
  ioctl_read_write, gpio_v2_get_line_ioctl, gpio_v2_line_set_values_ioctl,
}
use raspberry_pi_i2c_target.VirtualDisplay.Options.{
  Options, parse, parse_arguments, accept, accept_argument, accept_positional, finish_arguments,
  conflicts, complete, set_button_outputs, parse_button_outputs,
}
use raspberry_pi_i2c_target.VirtualDisplay.Options.Coherent.{IsCoherent, parse-IsCoherent}
use raspberry_pi_i2c_target.VirtualDisplay.Runtime.{
  DisplayRuntime, push_input, timed_out, poll_idle, poll_input, render_late,
}
use raspberry_pi_i2c_target.VirtualDisplay.Runtime.Fresh.{
  IsFresh, IsPrompt, StaysPrompt, push_input-fresh,
}
use raspberry_pi_i2c_target.VirtualDisplay.Runtime.Ends.{Ends, push_input-Ends}
use raspberry_pi_i2c_target.VirtualDisplay.Serve.{Serving, serve_round, handle_read, read_failed}
use raspberry_pi_i2c_target.VirtualDisplay.Serve.Loop.{Round, round, done, Rounds-IsPrompt}
use raspberry_pi_i2c_target.Driver.Finish.{finish_application}
use raspberry_pi_i2c_target.Driver.Finish.Clean.{
  Reports, Tells, finish_application-Tells, finish_application-IsClean,
}

abbrev arguments : List String
arguments = "--button-outputs=5,6" ∷ "0x3d" ∷ []

abbrev options : Options
options = record {
  unload = false;
  display = some DisplayController.sh1106;
  title = none;
  button_outputs = some (5, 6);
  vsync = false;
  address = some "0x3d";
  kernel_directory = none;
  idle_pull = IdlePull.no_pull;
}

parse-arguments : parse arguments ≡ ok options
unfolding parse parse_arguments accept accept_argument accept_positional finish_arguments conflicts
    complete set_button_outputs parse_button_outputs equals strip_prefix begins_with split_once
    parse_unsigned parse_digits digit_value
parse-arguments = refl

parse-IsCoherent_example : IsCoherent options
parse-IsCoherent_example = parse-IsCoherent arguments options parse-arguments

abbrev runtime : DisplayRuntime
runtime = record {
  parser = new DisplayController.ssd1306;
  button_outputs = none;
  visual_renders = 0;
  completed_frames = 0;
  discarded_bytes = 0;
  display_updates = 0;
  timeout_renders = 0;
  partial_frame_deadline = none;
}

runtime-IsFresh : IsFresh platform screen runtime bare
unfolding new
runtime-IsFresh = refl

-- One column of one page.
abbrev message : Bytes
message = 0x00 ∷ 0x21 ∷ 0 ∷ 0 ∷ 0x22 ∷ 0 ∷ 0 ∷ 0x40 ∷ 0x55 ∷ []

push_input-fresh_example : StaysPrompt platform screen 0 (push_input platform runtime message bare)
push_input-fresh_example = push_input-fresh platform screen runtime message bare runtime-IsFresh

push_input-Ends_example : Ends platform screen (push_input platform runtime message bare)
push_input-Ends_example =
    push_input-Ends platform screen runtime message bare
      (new-IsWellFormed DisplayController.ssd1306)

abbrev waiting : DisplayRuntime
waiting = record runtime { partial_frame_deadline = some 10 }

abbrev serving : Serving
serving = record { display = waiting; received_records = 0; received_bytes = 0; next_report = 1000 }

-- The deadline has come, and nothing is received.
abbrev late : Sample
late = record bare { time = 20 }

abbrev rendered : Serving
rendered = record serving { display = timed_out waiting }

late-IsFresh : IsFresh platform screen waiting late
late-IsFresh = omega arith

late_round : Round platform serving late rendered (serve_round platform serving late).1
unfolding serve_round handle_read read_failed poll_idle poll_input render_late new timed_out
late_round = round refl refl

Rounds-IsPrompt_example :
    IsPrompt platform screen 20 rendered.display (serve_round platform serving late).1
Rounds-IsPrompt_example =
    Rounds-IsPrompt platform screen serving serving rendered late late
      (serve_round platform serving late).1 late-IsFresh done late_round refl

abbrev guard : DriverGuard
guard = record {
  hardware_name = "Sample";
  module_file = "m";
  overlay = "o";
  overlay_loaded = true;
  module_loaded = true;
}

abbrev busy : Sample
busy = record bare { loaded = true; applied = true }

guard-Covers : Covers system "m" "o" kernel guard busy
unfolding kernel
guard-Covers = (refl, refl, refl, refl)

panics : ◌≢◌ {A = Outcome Serving} panic out_of_fuel
panics e = cc

finish_application-IsClean_example :
    IsClean system "m" "o" kernel
      (finish_application system "virtual display failed: " {A = Serving} panic guard busy).1
    × Reports {A = Serving} panic
        (finish_application system "virtual display failed: " {A = Serving} panic guard busy).0
finish_application-IsClean_example =
    finish_application-IsClean system "m" "o" kernel guard busy guard-Covers
      "virtual display failed: " removal {A = Serving} panic panics

abbrev failure : Error
failure = record { kind = ErrorKind.other; message = "no such device" }

finish_application-Tells_example :
    Tells system "m" "o" kernel guard busy guard-Covers "virtual display failed: " {A = Serving}
      (err failure)
      (finish_application system "virtual display failed: " {A = Serving} (err failure) guard busy)
finish_application-Tells_example =
    finish_application-Tells system "m" "o" kernel guard busy guard-Covers
      "virtual display failed: " {A = Serving} (err failure)

-- A message, and then nothing.
abbrev calls : List (Option Bytes)
calls = some message ∷ none ∷ []

-- The numbers that the source's own test expects.
get_line_number : gpio_v2_get_line_ioctl ≡ 0xc250_b407
unfolding ioctl_read_write
get_line_number = refl

set_values_number : gpio_v2_line_set_values_ioctl ≡ 0xc010_b40f
unfolding ioctl_read_write
set_values_number = refl
