-- ===== src/Controller/Long.antt =====
-- src/bin/controller-long.rs: the controller of the target driver, for long transfers. Its
-- `parse_address` is, clause by clause, that of src/kernel_target.rs with the default 0x13, and so is
-- the one used here.
use raspberry_pi_i2c_target.Prelude.{
  ℕ, ◌+◌, ◌==◌, ◌||◌, ltb, Option, List, length, if◌then◌else◌, Outcome, Bytes, ◌>?◌,
}
use raspberry_pi_i2c_target.Text.{String, byte_length, ◌<>◌}
use raspberry_pi_i2c_target.CommandLine.{first, second}
use raspberry_pi_i2c_target.Driver.Settings.{invalid_input, parse_address}
use raspberry_pi_i2c_target.Controller.{Bus, or_default, third}

-- `MAX_TRANSFER - 5`
abbrev pub max_message : ℕ
max_message = 8187

abbrev pub sixteen_digits : String
sixteen_digits = "0123456789abcdef"

abbrev pub default_message : String
default_message = sixteen_digits <> sixteen_digits <> sixteen_digits <> sixteen_digits

-- The message of the arguments behind the program's name.
abbrev pub message_of : List String → String
message_of arguments = or_default default_message (first arguments)

module _ (b : Bus) where
  -- The lines of `main` behind the parsing; the value is the response that is printed.
  unfoldable pub transfer : String → ℕ → String → b.World → Outcome Bytes × b.World
  transfer message address bus_path w = b.open_bus bus_path w >? λ _ w. b.select address w >? λ _ w.
      b.write_all message w >? λ _ w. b.read_exact (byte_length message + 5) (b.sleep 20 w)

  -- The lines of `main` behind the test of the number of arguments.
  unfoldable pub send : String → Option String → String → b.World → Outcome Bytes × b.World
  send message address bus_path w =
      if byte_length message == 0 || ltb max_message (byte_length message)
      then (invalid_input "message must contain 1..=8187 bytes", w)
      else (parse_address address 0x13, w) >? λ address w. transfer message address bus_path w

  -- `main`, of the arguments behind the program's name
  unfoldable pub main : List String → b.World → Outcome Bytes × b.World
  main arguments w =
      if ltb 3 (length arguments)
      then (invalid_input "too many arguments", w)
      else send (message_of arguments) (second arguments)
          (or_default "/dev/i2c-1" (third arguments)) w
