-- ===== src/Tests/OfDirect.antt =====
-- src/bin/target.rs on a small board: one byte waits to be taken, and the flag is cleared after one
-- round.
use raspberry_pi_i2c_target.Prelude.{
  ℕ, ◌≤◌, ◌<◌, ◌≡◌, ◌≢◌, refl, arith, ◌==◌, ◌||◌, Bool, true, false, [], ◌∷◌, bit_or, ok,
  out_of_fuel, if◌then◌else◌, bit_and, ◌^◌,
}
use raspberry_pi_i2c_target.Text.{contains_text, strip_prefix}
use raspberry_pi_i2c_target.Direct.Hardware.{pi_4, from_model, parse_address}
use raspberry_pi_i2c_target.Direct.Machine.{Page, Machine, Peripheral, store, take_byte, Registers}
use raspberry_pi_i2c_target.Direct.Target.{
  HardwareTarget, with_function, bsc_control, configure, queue_response, gpio_alt3, open_target,
  set_gpio_function, disable_internal_pulls, set_bcm2711_pull_none, drain_received, receiving,
  wait_while, send_bytes, drop_target, shutdown,
}
use raspberry_pi_i2c_target.Direct.Target.Fields.{function_field, function_field-with_function}
use raspberry_pi_i2c_target.Direct.Target.Functions.{function_of, PullsOff}
use raspberry_pi_i2c_target.Direct.Target.Configure.{configure-listens}
use raspberry_pi_i2c_target.Direct.Target.Send.{
  Settles, Leaves, add_sent, restarted, queue_response-sends,
}
use raspberry_pi_i2c_target.Direct.Serve.{serve_loop, handle_received, answer, response, main}
use raspberry_pi_i2c_target.Direct.Serve.Frames.{Answers, events, serve_loop-Answers}
use raspberry_pi_i2c_target.Direct.Serve.Released.{Restores, main-Restores}

record Board : Type 0 where
  peripheral : Peripheral
  waits : Bool
  running : Bool

abbrev read_bsc : ℕ → Board → ℕ × Board
read_bsc register w =
    if register == 0
    then (
      0x41,
      record w { peripheral = take_byte Page.bsc register 0x41 w.peripheral; waits = false },
    )
    else (
      if w.waits then 0 else 2,
      record w { peripheral = take_byte Page.bsc register 0 w.peripheral },
    )

abbrev read_page : Page → ℕ → Board → ℕ × Board
read_page Page.gpio register w = (w.peripheral.pins register, w)
read_page Page.bsc register w = read_bsc register w

abbrev machine : Machine
machine = record {
  World = Board;
  read_model = λ w. (ok "Raspberry Pi 4 Model B Rev 1.1", w);
  debug_model = λ text. text;
  open_memory = λ w. (ok tt, w);
  map_page = λ page address w. (ok tt, w);
  unmap_page = λ page w. w;
  read_register = read_page;
  write_register =
      λ page register value w. record w { peripheral = store page register value w.peripheral };
  sleep = λ n w. w;
  is_running = λ w. (w.running, record w { running = false });
}

read_page-loads :
    (page : Page) (register : ℕ) (w : Board)
    → (read_page page register w).1.peripheral
      ≡ take_byte page register (read_page page register w).0 w.peripheral
read_page-loads Page.gpio register w = refl
read_page-loads Page.bsc register w = ground arith

abbrev registers : Registers machine
registers = record {
  peripheral = λ w. w.peripheral;
  write_stores = λ page register value w. refl;
  read_pins = λ register w. refl;
  read_loads = read_page-loads;
  sleep_keeps = λ n w. refl;
  running_keeps = λ w. refl;
  unmap_keeps = λ page w. refl;
  model_keeps = λ w. refl;
  memory_keeps = λ w. refl;
  map_keeps = λ page address w. refl;
}

waits_once : (waits : Bool) → (if waits then 1 else 0) ≤ 1
waits_once true = omega arith
waits_once false = omega arith

-- The status never has a flag of the masks that are polled, and has RX_EMPTY where no byte waits.
never_busy :
    (waits : Bool) → (bit_and (if waits then 0 else 2) (bit_or (2 ^ 0) (2 ^ 5)) == 0) ≡ true
never_busy true = refl
never_busy false = refl

never_full : (waits : Bool) → (bit_and (if waits then 0 else 2) (2 ^ 2) == 0) ≡ true
never_full true = refl
never_full false = refl

waits_if :
    (waits : Bool)
    → (bit_and (if waits then 0 else 2) (2 ^ 1) == 0) ≡ true
    → 0 < (if waits then 1 else 0)
waits_if true e = omega arith
waits_if false e = cc

settles : Settles machine 1
settles = record {
  delay = λ w. 0;
  waiting = λ w. if w.waits then 1 else 0;
  delay_limit = λ w. omega arith;
  waiting_limit = λ w. waits_once w.waits;
  busy_falls = λ w e. cc (never_busy w.waits);
  full_falls = λ w e. cc (never_full w.waits);
  bytes_fall = λ w e. waits_if w.waits e;
}

abbrev fresh : Board
fresh = record {
  peripheral = record {
    pins = λ register. 0;
    control = 0;
    slave = 0;
    sent = [];
    queued = [];
    taken = [];
    pulls = λ pin. 2;
  };
  waits = true;
  running = true;
}

abbrev target : HardwareTarget
target = record { address = 0x13; hardware = pi_4 }

function_field-with_function_example : function_field (with_function 0x3fff_ffff 18 4) 8 ≡ 4
function_field-with_function_example =
    function_field-with_function 0x3fff_ffff 18 4 8 (omega arith) (omega arith)

configure-listens_example :
    ((configure machine target fresh).peripheral.control ≡ bsc_control)
    × ((configure machine target fresh).peripheral.slave ≡ 0x13)
    × ((configure machine target fresh).peripheral.sent ≡ [])
    × ((pin : ℕ)
        → pin < 54
        → function_of (configure machine target fresh).peripheral pin
          ≡ (if pin == 10 || pin == 11 then gpio_alt3 else function_of fresh.peripheral pin))
    × PullsOff pi_4.pull_control pi_4 fresh.peripheral (configure machine target fresh).peripheral
configure-listens_example =
    configure-listens machine registers target fresh (omega arith) (omega arith)

queue_response-sends_example :
    Leaves machine registers
      (queue_response machine 2 target (7 ∷ 8 ∷ []) fresh)
      (add_sent (2 ∷ 7 ∷ 8 ∷ []) (restarted 0x13 fresh.peripheral))
queue_response-sends_example =
    queue_response-sends machine registers 1 settles 2 target (7 ∷ 8 ∷ []) fresh (omega arith)
      (omega arith) (omega arith)

serve_loop-Answers_example :
    Answers machine registers 1 settles target [] []
      (events machine target 3 2 [] fresh)
      fresh.peripheral
      (serve_loop machine target 3 2 [] fresh)
serve_loop-Answers_example =
    serve_loop-Answers machine registers 1 settles target 3 2 fresh (omega arith)

-- The first round finds the byte, with no transfer running.
found : events machine target 3 2 [] fresh ≡ (0x41 ∷ [], false) ∷ []
unfolding events drain_received receiving wait_while send_bytes queue_response handle_received
    answer response
found = refl

-- A whole run answers the byte and returns.
main-answers :
    ((main machine 3 3 [] fresh).0 ≡ ok tt)
    × ((main machine 3 3 [] fresh).1.peripheral.sent
        ≡ 6 ∷ 0x41 ∷ 0x43 ∷ 0x4b ∷ 0x3a ∷ 0x20 ∷ 0x41 ∷ [])
unfolding main parse_address from_model contains_text strip_prefix open_target configure
    set_gpio_function disable_internal_pulls set_bcm2711_pull_none drain_received receiving
    wait_while send_bytes queue_response drop_target shutdown serve_loop handle_received answer
    response
main-answers = (refl, refl)

main-ends : (main machine 3 3 [] fresh).0 ≢ out_of_fuel
main-ends e = cc (main-answers.0)

main-Restores_example : Restores fresh.peripheral (main machine 3 3 [] fresh).1.peripheral
main-Restores_example = main-Restores machine registers 3 3 [] fresh main-ends
