-- ===== src/Buttons/Outputs.antt =====
-- src/gpio_buttons.rs: `GpioButtonOutputs`, over the calls of a GPIO chip. That the chip's file is
-- closed again is not modelled.
use raspberry_pi_i2c_target.Prelude.{
  ℕ, ◌+◌, ◌*◌, ◌^◌, ◌-◌, Option, none, some, List, [], ◌∷◌, ◌++◌, replicate, length, bit_or,
  Outcome, ok, ErrorKind, Call, Bytes, if◌then◌else◌, ◌>?◌,
}
use raspberry_pi_i2c_target.Text.{String}
use raspberry_pi_i2c_target.Driver.Commands.{fails}
use raspberry_pi_i2c_target.Buttons.{ButtonState, released, equal_states, line_bits}

abbrev gpio_lines_max : ℕ
gpio_lines_max = 64

abbrev gpio_name_size : ℕ
gpio_name_size = 32

abbrev gpio_attrs_max : ℕ
gpio_attrs_max = 10

abbrev pub gpio_v2_line_flag_output : ℕ
gpio_v2_line_flag_output = 2 ^ 3

abbrev pub gpio_v2_line_flag_open_drain : ℕ
gpio_v2_line_flag_open_drain = 2 ^ 6

abbrev pub gpio_v2_line_attr_id_output_values : ℕ
gpio_v2_line_attr_id_output_values = 2

pub record LineAttribute : Type 0 where
  pub id : ℕ
  pub padding : ℕ
  pub value : ℕ

pub record LineConfigAttribute : Type 0 where
  pub attr : LineAttribute
  pub mask : ℕ

pub record LineConfig : Type 0 where
  pub flags : ℕ
  pub num_attrs : ℕ
  pub padding : List ℕ
  pub attrs : List LineConfigAttribute

-- The field `fd` is what the call gives.
pub record LineRequest : Type 0 where
  pub offsets : List ℕ
  pub consumer : Bytes
  pub config : LineConfig
  pub num_lines : ℕ
  pub event_buffer_size : ℕ
  pub padding : List ℕ

pub record LineValues : Type 0 where
  pub bits : ℕ
  pub mask : ℕ

-- `size_of` of the structures, of which no field needs padding in front of it.
abbrev line_attribute_size : ℕ
line_attribute_size = 4 + 4 + 8

abbrev line_config_size : ℕ
line_config_size = 8 + 4 + 4 * 5 + (line_attribute_size + 8) * gpio_attrs_max

abbrev line_request_size : ℕ
line_request_size = 4 * gpio_lines_max + gpio_name_size + line_config_size + 4 + 4 + 4 * 5 + 4

abbrev line_values_size : ℕ
line_values_size = 8 + 8

abbrev ioc_nrshift : ℕ
ioc_nrshift = 0

-- `IOC_NRSHIFT + IOC_NRBITS`, and so on
abbrev ioc_typeshift : ℕ
ioc_typeshift = ioc_nrshift + 8

abbrev ioc_sizeshift : ℕ
ioc_sizeshift = ioc_typeshift + 8

abbrev ioc_dirshift : ℕ
ioc_dirshift = ioc_sizeshift + 14

abbrev ioc_write : ℕ
ioc_write = 1

abbrev ioc_read : ℕ
ioc_read = 2

-- No bit is lost in the 64 of a `c_ulong`.
unfoldable pub ioctl_read_write : (number size : ℕ) → ℕ
ioctl_read_write number size =
    bit_or
      (bit_or (bit_or (bit_or ioc_read ioc_write * 2 ^ ioc_dirshift) (0xb4 * 2 ^ ioc_typeshift))
        (number * 2 ^ ioc_nrshift))
      (size * 2 ^ ioc_sizeshift)

abbrev pub gpio_v2_get_line_ioctl : ℕ
gpio_v2_get_line_ioctl = ioctl_read_write 0x07 line_request_size

abbrev pub gpio_v2_line_set_values_ioctl : ℕ
gpio_v2_line_set_values_ioctl = ioctl_read_write 0x0f line_values_size

abbrev no_attribute : LineConfigAttribute
no_attribute = record { attr = record { id = 0; padding = 0; value = 0 }; mask = 0 }

-- `b"virtual-display-buttons"`
abbrev consumer_name : Bytes
consumer_name =
    b'v' ∷ b'i' ∷ b'r' ∷ b't' ∷ b'u' ∷ b'a' ∷ b'l' ∷ b'-' ∷ b'd' ∷ b'i' ∷ b's' ∷ b'p' ∷ b'l' ∷ b'a'
    ∷ b'y' ∷ b'-' ∷ b'b' ∷ b'u' ∷ b't' ∷ b't' ∷ b'o' ∷ b'n' ∷ b's' ∷ []

-- The request of `new`.
unfoldable pub line_request : (left right : ℕ) → LineRequest
line_request left right = record {
  offsets = left ∷ right ∷ replicate (gpio_lines_max - 2) 0;
  consumer = consumer_name ++ replicate (gpio_name_size - length consumer_name) 0;
  config = record {
    flags = bit_or gpio_v2_line_flag_output gpio_v2_line_flag_open_drain;
    num_attrs = 1;
    padding = replicate 5 0;
    attrs =
        record {
          attr = record { id = gpio_v2_line_attr_id_output_values; padding = 0; value = 0x3 };
          mask = 0x3;
        }
        ∷ replicate (gpio_attrs_max - 1) no_attribute;
  };
  num_lines = 2;
  event_buffer_size = 0;
  padding = replicate 5 0;
}

-- What is called outside; the first argument of the `ioctl` calls is the request's number.
pub record Chip (W : Type 0) : Type 0 where
  pub open_chip : String → Call W Unit
  -- the descriptor of the lines, or none where it is negative
  pub get_lines : ℕ → LineRequest → Call W (Option ℕ)
  pub set_values : (descriptor : ℕ) → ℕ → LineValues → Call W Unit

pub record GpioButtonOutputs : Type 0 where
  pub lines : ℕ
  pub state : ButtonState

abbrev pub check_descriptor : Option ℕ → Outcome GpioButtonOutputs
check_descriptor none = fails ErrorKind.other "GPIO line request returned an invalid descriptor"
check_descriptor (some descriptor) = ok (record { lines = descriptor; state = released })

module _ {W : Type 0} (c : Chip W) where
  -- `GpioButtonOutputs::new`
  unfoldable pub request_lines :
      (chip : String) (left right : ℕ) → W → Outcome GpioButtonOutputs × W
  request_lines chip left right w = c.open_chip chip w >? λ _ w.
      c.get_lines gpio_v2_get_line_ioctl (line_request left right) w >? λ descriptor w.
      (check_descriptor descriptor, w)

  -- `GpioButtonOutputs::set`, with the outputs that it leaves
  unfoldable pub set_outputs : GpioButtonOutputs → ButtonState → W → Outcome GpioButtonOutputs × W
  set_outputs outputs state w =
      if equal_states state outputs.state
      then (ok outputs, w)
      else c.set_values outputs.lines gpio_v2_line_set_values_ioctl
          (record { bits = line_bits state; mask = 0x3 }) w
        >? λ _ w. (ok (record outputs { state = state }), w)
