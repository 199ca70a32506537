-- ===== src/Tests/OfResponder.antt =====
-- src/bin/target-driver.rs on the sample device.
use raspberry_pi_i2c_target.Prelude.{
  ◌≤◌, ◌≡◌, refl, some, none, [], ◌∷◌, ◌++◌, List, Bytes, length, ok, false, map,
}
use raspberry_pi_i2c_target.Text.{
  String, equals, strip_prefix, begins_with, parse_digits, parse_unsigned, digit_value,
}
use raspberry_pi_i2c_target.Tests.Sample.{bare, device, log_write}
use raspberry_pi_i2c_target.Driver.Settings.{IdlePull, parse_idle_pull, parse_gpio, max_transfer}
use raspberry_pi_i2c_target.Responder.Options.{
  Options, parse, parse_arguments, accept, accept_argument, accept_positional, finish_arguments,
  conflicts, complete, set_idle_pull, set_ready_gpio,
}
use raspberry_pi_i2c_target.Responder.Options.Coherent.{IsCoherent, responder_options-IsCoherent}
use raspberry_pi_i2c_target.Responder.Device.{Device, Log}
use raspberry_pi_i2c_target.Responder.Serve.{
  Totals, ack_prefix, response, serve_loop, handle_read, handle_request, queue_response, queue_loop,
  after_write,
}
use raspberry_pi_i2c_target.Responder.Serve.Answers.{serve_loop-LeavesAnswered}
use raspberry_pi_i2c_target.Responder.Serve.Response.{response-fits}

abbrev arguments : List String
arguments = "--ready-gpio" ∷ "17" ∷ "--idle-pull=up" ∷ "0x13" ∷ []

abbrev options : Options
options = record {
  unload = false;
  receive_only = false;
  address = some "0x13";
  kernel_directory = none;
  idle_pull = IdlePull.up;
  ready_gpio = some 17;
}

parse-arguments : parse arguments ≡ ok options
unfolding parse parse_arguments accept accept_argument accept_positional finish_arguments conflicts
    complete set_idle_pull set_ready_gpio parse_idle_pull parse_gpio equals strip_prefix begins_with
    parse_unsigned parse_digits digit_value
parse-arguments = refl

responder_options-IsCoherent_example : IsCoherent options
responder_options-IsCoherent_example =
    responder_options-IsCoherent arguments options parse-arguments

abbrev totals : Totals
totals = record { received_transactions = 0; received_bytes = 0; next_report = 1000 }

-- The flag is cleared behind the first test.
abbrev stopping : Device
stopping = record device { is_running = λ w. (w.running, record w { running = false }) }

abbrev stopping_log : Log stopping
stopping_log = record {
  records = λ w. w.records;
  responses = λ w. w.responses;
  read_records = λ w. refl;
  write_responses = log_write;
  read_keeps = λ w. refl;
  write_keeps = λ b w. refl;
  now_keeps = λ w. (refl, refl);
  sleep_keeps = λ n w. (refl, refl);
  running_keeps = λ w. (refl, refl);
}

-- One record is answered, and the loop returns.
stopping-returns : (serve_loop stopping 3 3 false totals bare).0 ≡ ok totals
unfolding serve_loop handle_read handle_request response queue_response queue_loop after_write
stopping-returns = refl

serve_loop-LeavesAnswered_example :
    (serve_loop stopping 3 3 false totals bare).1.responses
    ≡ map response (serve_loop stopping 3 3 false totals bare).1.records
serve_loop-LeavesAnswered_example =
    serve_loop-LeavesAnswered stopping stopping_log 3 3 totals totals bare refl stopping-returns

abbrev request : Bytes
request = 7 ∷ []

response-fits_example :
    (length (response request) ≤ max_transfer)
    × (length request ≤ 8187 → response request ≡ ack_prefix ++ request)
response-fits_example = response-fits request
