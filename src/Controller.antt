-- ===== src/Controller.antt =====
-- src/bin/controller.rs: the controller of the direct target, and what both controllers call outside.
pub mod Long
pub mod Reply
use raspberry_pi_i2c_target.Prelude.{
  ℕ, zero, suc, Bool, true, false, not, ◌||◌, Option, none, some, List, [], ◌∷◌, ◌==◌, ltb, get_or,
  length, if◌then◌else◌, Outcome, ok, ErrorKind, ◌>>=◌, Call, Bytes, ◌>?◌,
}
use raspberry_pi_i2c_target.Text.{String, byte_length, ◌<>◌, trim}
use raspberry_pi_i2c_target.CommandLine.{first, second}
use raspberry_pi_i2c_target.Driver.Settings.{invalid_input, required, parse_number, hexadecimal}
use raspberry_pi_i2c_target.Driver.Commands.{fails}

-- The bus: each call may fail. `read_exact` fills a buffer of so many bytes.
pub record Bus : Type 1 where
  pub World : Type 0
  pub open_bus : String → Call World Unit
  -- the `ioctl` `I2C_SLAVE`
  pub select : ℕ → Call World Unit
  pub write_all : String → Call World Unit
  pub read_exact : ℕ → Call World Bytes
  -- `thread::sleep` of so many milliseconds
  pub sleep : ℕ → World → World

abbrev pub max_command : ℕ
max_command = 15

abbrev check_address : ℕ → Outcome ℕ
check_address parsed =
    if ltb 0x7f parsed
    then invalid_input "I2C address must be a 7-bit value (0..0x7f)"
    else ok parsed

unfoldable pub parse_address : Option String → Outcome ℕ
parse_address none = ok 0x13
parse_address (some value) =
    required "invalid I2C address" (parse_number (trim value) (hexadecimal (trim value)))
    >>= check_address

-- `args.get(n).map(String::as_str).unwrap_or(default)`
abbrev pub or_default : String → Option String → String
or_default default none = default
or_default default (some value) = value

-- The third argument behind the program's name.
abbrev pub third : List String → Option String
third [] = none
third (a ∷ rest) = second rest

module _ (b : Bus) where
  -- `(0..100).find_map(…)` with the error for `None`, with `left` tries to go.
  unfoldable pub poll_length : (left : ℕ) → b.World → Outcome ℕ × b.World
  poll_length zero w = (fails ErrorKind.timed_out "target reply timed out", w)
  poll_length (suc left) w = b.read_exact 1 w >? λ bytes w.
      if get_or bytes 0 0 == 0 then poll_length left (b.sleep 10 w) else (ok (get_or bytes 0 0), w)

  -- The lines of `main` behind `write_all`; the value is the reply that is printed.
  unfoldable pub read_reply : b.World → Outcome Bytes × b.World
  read_reply w =
      poll_length 100 (b.sleep 20 w) >? λ response_length w. b.read_exact response_length w

  unfoldable pub send : String → ℕ → String → b.World → Outcome Bytes × b.World
  send message address bus_path w =
      if byte_length message == 0 || ltb max_command (byte_length message)
      then (invalid_input "message must contain 1..=15 bytes", w)
      else b.open_bus bus_path w >? λ _ w.
          b.select address w >? λ _ w. b.write_all message w >? λ _ w. read_reply w

  -- `main`, of the arguments behind the program's name
  unfoldable pub main : List String → b.World → Outcome Bytes × b.World
  main arguments w =
      if ltb 3 (length arguments)
      then (invalid_input "too many arguments", w)
      else (parse_address (second arguments), w) >? λ address w.
          send (or_default "hello Pi 3" (first arguments)) address
            (or_default "/dev/i2c-1" (third arguments)) w
