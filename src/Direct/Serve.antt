-- ===== src/Direct/Serve.antt =====
-- src/bin/target.rs: `main`. What is printed is not modelled.
pub mod Frames
pub mod Released
mod Pins
use raspberry_pi_i2c_target.Prelude.{
  ℕ, zero, suc, ltb, ◌==◌, Bool, List, [], ◌∷◌, ◌++◌, length, take, min, if◌then◌else◌, Outcome, ok,
  err, panic, out_of_fuel, ErrorKind, Error, Bytes, ◌>?◌, ◌>!◌, map_error,
}
use raspberry_pi_i2c_target.Text.{String}
use raspberry_pi_i2c_target.CommandLine.{first}
use raspberry_pi_i2c_target.Driver.Settings.{invalid_input}
use raspberry_pi_i2c_target.Responder.Serve.{ack_prefix}
use raspberry_pi_i2c_target.Direct.Hardware.{parse_address}
use raspberry_pi_i2c_target.Direct.Machine.{Machine}
use raspberry_pi_i2c_target.Direct.Target.{
  HardwareTarget, open_target, drain_received, receiving, queue_response, drop_target,
}

abbrev pub max_command : ℕ
max_command = 15

-- The response to a command.
unfoldable pub response : Bytes → Bytes
response received = ack_prefix ++ take (min (length received) 10) received

module _ (m : Machine) (t : HardwareTarget) where
  -- The branch of the loop that has a whole command; the value is what `received` holds next.
  unfoldable pub answer : (fuel : ℕ) → Bytes → m.World → Outcome Bytes × m.World
  answer fuel received w =
      if ltb max_command (length received)
      then (ok [], w)
      else queue_response m fuel t (response received) w >? λ _ w. (ok [], m.sleep 1000 w)

  -- The body of the loop, behind `drain_received`.
  unfoldable pub handle_received : (fuel : ℕ) → Bytes → m.World → Outcome Bytes × m.World
  handle_received fuel received w =
      if length received == 0
      then (ok received, m.sleep 1000 w)
      else receiving m w >! λ busy w.
          if busy then (ok received, m.sleep 1000 w) else answer fuel received w

  -- The loop of `main`, for at most `rounds` rounds.
  unfoldable pub serve_loop : (rounds fuel : ℕ) → Bytes → m.World → Outcome {0} Unit × m.World
  serve_loop zero fuel received w = (out_of_fuel, w)
  serve_loop (suc rounds) fuel received w = m.is_running w >! λ running w.
      let round =
        drain_received m fuel received w >? λ received w. handle_received fuel received w in
      if running then (round >? λ received w. serve_loop rounds fuel received w) else (ok tt, w)

  -- `drop(target)`, at the end and where the loop fails.
  abbrev pub finish : Outcome {0} Unit → m.World → Outcome {0} Unit × m.World
  finish (ok a) w = (ok tt, drop_target m t w)
  finish (err error) w = (err error, drop_target m t w)
  finish panic w = (panic, drop_target m t w)
  finish out_of_fuel w = (out_of_fuel, w)

-- The closure of `map_err`.
abbrev explain_permission : ErrorKind → Error → Error
explain_permission ErrorKind.permission_denied error = record error {
  message = "cannot map /dev/mem; run as root (sudo) and check Ubuntu's /dev/mem policy";
}
explain_permission _ error = error

-- `main`, of the arguments behind the program's name
unfoldable pub main :
    (m : Machine) (rounds fuel : ℕ) → List String → m.World → Outcome {0} Unit × m.World
main m rounds fuel arguments w =
    if ltb 1 (length arguments)
    then (invalid_input "too many arguments", w)
    else (parse_address (first arguments), w) >? λ address w.
        map_error (λ error. explain_permission error.kind error) (open_target m address w) >? λ t w.
        serve_loop m t rounds fuel [] w >! λ served w. finish m t served w
