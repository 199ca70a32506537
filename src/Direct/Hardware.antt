-- ===== src/Direct/Hardware.antt =====
-- src/bin/target.rs: the two supported boards and `parse_address`.
use raspberry_pi_i2c_target.Prelude.{
  ℕ, not, Option, none, some, within, if◌then◌else◌, Outcome, ok, ErrorKind, ◌>>=◌,
}
use raspberry_pi_i2c_target.Text.{String, ◌<>◌, contains_text, trim}
use raspberry_pi_i2c_target.Driver.Settings.{invalid_input, required, parse_number, hexadecimal}
use raspberry_pi_i2c_target.Driver.Commands.{fails}

pub data PullControl : Type 0 where
  legacy bcm2711 : PullControl

pub record Hardware : Type 0 where
  pub name : String
  pub gpio_physical : ℕ
  pub bsc_target_physical : ℕ
  pub target_sda : ℕ
  pub target_scl : ℕ
  pub sda_header_pin : ℕ
  pub scl_header_pin : ℕ
  pub pull_control : PullControl

abbrev pub pi_3 : Hardware
pi_3 = record {
  name = "Pi 3";
  gpio_physical = 0x3f20_0000;
  bsc_target_physical = 0x3f21_4000;
  target_sda = 18;
  target_scl = 19;
  sda_header_pin = 12;
  scl_header_pin = 35;
  pull_control = PullControl.legacy;
}

abbrev pub pi_4 : Hardware
pi_4 = record {
  name = "Pi 4";
  gpio_physical = 0xfe20_0000;
  bsc_target_physical = 0xfe21_4000;
  target_sda = 10;
  target_scl = 11;
  sda_header_pin = 19;
  scl_header_pin = 23;
  pull_control = PullControl.bcm2711;
}

-- `Hardware::from_model`; `debug_model` is `format!("{:?}", model.trim_end_matches('\0'))`.
unfoldable pub from_model : (debug_model : String → String) → String → Outcome Hardware
from_model debug_model model =
    if contains_text model "Raspberry Pi 3 Model B"
    then ok pi_3
    else if contains_text model "Raspberry Pi 4 Model B"
    then ok pi_4
    else fails ErrorKind.unsupported
        ("target supports Raspberry Pi 3B/3B+ and Pi 4B; detected " <> debug_model model)

abbrev check_address : ℕ → Outcome ℕ
check_address parsed =
    if not (within 0x08 0x77 parsed)
    then invalid_input "choose a non-reserved I2C address in 0x08..=0x77"
    else ok parsed

unfoldable pub parse_address : Option String → Outcome ℕ
parse_address none = ok 0x13
parse_address (some value) =
    required "invalid I2C address" (parse_number (trim value) (hexadecimal (trim value)))
    >>= check_address
