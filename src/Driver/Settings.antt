-- ===== src/Driver/Settings.antt =====
-- src/kernel_target.rs: `IdlePull`, `parse_address`, `parse_gpio` and `validate_ready_gpio`.
pub mod Bounds
use raspberry_pi_i2c_target.Prelude.{
  ℕ, Bool, true, false, ◌||◌, Option, none, some, List, [], ◌∷◌, ltb, within, not, ◌==◌,
  if◌then◌else◌, Outcome, ok, err, ErrorKind, Error, ◌>>=◌,
}
use raspberry_pi_i2c_target.Text.{String, ◌<>◌, equals, strip_prefix, parse_u32, parse_u16, decimal}

abbrev pub device : String
device = "/dev/bsc-target0"

abbrev pub max_transfer : ℕ
max_transfer = 8192

abbrev pub module_name : String
module_name = "bcm27xx_bsc_target"

abbrev pub first_overlay : String
first_overlay = "bsc-target-pi3"

abbrev pub second_overlay : String
second_overlay = "bsc-target-pi4"

abbrev pub invalid_input : {A : Type 0} → String → Outcome A
invalid_input message = err (record { kind = ErrorKind.invalid_input; message = message })

-- `option.ok_or_else(|| io::Error::new(io::ErrorKind::InvalidInput, message))`
abbrev pub required : {A : Type 0} → String → Option A → Outcome A
required message none = invalid_input message
required message (some a) = ok a

-- The variant `None` is called `no_pull`.
pub data IdlePull : Type 0 where
  no_pull down up : IdlePull

-- `IdlePull::parse`
unfoldable pub parse_idle_pull : String → Outcome IdlePull
parse_idle_pull value =
    if equals value "none"
    then ok IdlePull.no_pull
    else if equals value "down"
    then ok IdlePull.down
    else if equals value "up"
    then ok IdlePull.up
    else invalid_input "idle pull must be `none`, `down`, or `up`"

-- `IdlePull::name`
unfoldable pub idle_pull_name : IdlePull → String
idle_pull_name IdlePull.no_pull = "none"
idle_pull_name IdlePull.down = "down"
idle_pull_name IdlePull.up = "up"

unfoldable pub overlay_parameter : IdlePull → String
overlay_parameter IdlePull.no_pull = "idle_pull=0"
overlay_parameter IdlePull.down = "idle_pull=1"
overlay_parameter IdlePull.up = "idle_pull=2"

-- `value.strip_prefix("0x").or_else(|| value.strip_prefix("0X"))`
abbrev pub hexadecimal : String → Option String
hexadecimal value = elim (strip_prefix value "0x") [
  | some digits ↦ some digits
  | none ↦ strip_prefix value "0X"
]

abbrev pub parse_number : String → Option String → Option ℕ
parse_number value (some digits) = parse_u16 16 digits
parse_number value none = parse_u16 10 value

abbrev check_address : ℕ → Outcome ℕ
check_address parsed =
    if not (within 0x08 0x77 parsed)
    then invalid_input "choose a non-reserved address in 0x08..=0x77"
    else ok parsed

unfoldable pub parse_address : Option String → ℕ → Outcome ℕ
parse_address none default = ok default
parse_address (some value) default =
    required "invalid I2C address" (parse_number value (hexadecimal value)) >>= check_address

abbrev gpio_message : String
gpio_message = "GPIO must be a BCM GPIO number in 0..=53"

unfoldable pub parse_gpio : String → Outcome ℕ
parse_gpio value = required gpio_message (parse_u32 value) >>= λ gpio.
    if ltb 53 gpio then invalid_input gpio_message else ok gpio

-- `pins.contains(&gpio)`
unfoldable pub contains : List ℕ → ℕ → Bool
contains [] gpio = false
contains (pin ∷ pins) gpio = pin == gpio || contains pins gpio

unfoldable pub validate_ready_gpio : String → List ℕ → Option ℕ → Outcome {0} Unit
validate_ready_gpio hardware_name target_pins none = ok tt
validate_ready_gpio hardware_name target_pins (some gpio) =
    if ltb 53 gpio
    then invalid_input "ready GPIO must be a BCM GPIO number in 0..=53"
    else if contains target_pins gpio
    then invalid_input
        ("GPIO" <> decimal gpio <> " is used by the I2C target peripheral on " <> hardware_name)
    else ok tt
