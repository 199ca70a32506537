-- ===== src/Protocol/State.antt =====
-- src/display_protocol.rs: constants, `DisplayController`, `ParseUpdate`, `ParseState`,
-- `DisplayParser` and `DisplayParser::new`.
use Prim.Native.String.{String}
use text.Mathlib.Text.{◌==◌ as str_eq}
use raspberry_pi_i2c_target.Prelude.{
  ℕ, ◌*◌, ◌/◌, Bool, false, Option, none, some, [], ◌∷◌, replicate, Bytes, if◌then◌else◌,
}

abbrev pub display_width : ℕ
display_width = 128

abbrev pub display_height : ℕ
display_height = 64

abbrev pub framebuffer_size : ℕ
framebuffer_size = display_width * display_height / 8

abbrev pub ssd1306_init : Bytes
ssd1306_init =
    0x00 ∷ 0xae ∷ 0xd5 ∷ 0x80 ∷ 0xa8 ∷ 0x3f ∷ 0xd3 ∷ 0x00 ∷ 0x40 ∷ 0x8d ∷ 0x14 ∷ 0x20 ∷ 0x00 ∷ 0xa1
    ∷ 0xc8 ∷ 0xda ∷ 0x12 ∷ 0x81 ∷ 0xcf ∷ 0xd9 ∷ 0xf1 ∷ 0xdb ∷ 0x40 ∷ 0xa4 ∷ 0xa6 ∷ 0xaf ∷ []

abbrev pub sh1106_init : Bytes
sh1106_init =
    0x00 ∷ 0xae ∷ 0x02 ∷ 0x10 ∷ 0x40 ∷ 0x81 ∷ 0xa0 ∷ 0xa1 ∷ 0xc8 ∷ 0xa6 ∷ 0xa8 ∷ 0x3f ∷ 0xd3 ∷ 0x00
    ∷ 0xd5 ∷ 0x80 ∷ 0xd9 ∷ 0xf1 ∷ 0xda ∷ 0x12 ∷ 0xdb ∷ 0x40 ∷ 0x20 ∷ 0x02 ∷ 0xa4 ∷ 0xa6 ∷ []

abbrev pub sh1106_display_on : Bytes
sh1106_display_on = 0x00 ∷ 0xaf ∷ []

pub data DisplayController : Type 0 where
  ssd1306 sh1106 : DisplayController

-- `DisplayController::parse`
unfoldable pub parse_controller : String → Option DisplayController
parse_controller value =
    if str_eq value "ssd1306"
    then some DisplayController.ssd1306
    else if str_eq value "sh1106"
    then some DisplayController.sh1106
    else none

-- `DisplayController::name`
unfoldable pub controller_name : DisplayController → String
controller_name DisplayController.ssd1306 = "ssd1306"
controller_name DisplayController.sh1106 = "sh1106"

pub record ParseUpdate : Type 0 where
  pub completed_frames : ℕ
  pub partial_frame_boundary : Bool
  pub discarded_bytes : ℕ
  pub display_updates : ℕ

-- `ParseUpdate::default()`
abbrev pub no_update : ParseUpdate
no_update = record {
  completed_frames = 0;
  partial_frame_boundary = false;
  discarded_bytes = 0;
  display_updates = 0;
}

pub data ParseState : Type 0 where
  scan : ParseState
  ssd1306_data : (x width page pages : ℕ) → ParseState
  sh1106_page_data : (page x width : ℕ) → ParseState

pub record DisplayParser : Type 0 where
  pub controller : DisplayController
  pub pending : Bytes
  pub state : ParseState
  pub framebuffer : Bytes
  pub sh1106_pages : ℕ
  pub sh1106_frame_started : Bool
  pub sh1106_last_page_command : Option ℕ

-- `DisplayParser::new`
unfoldable pub new : DisplayController → DisplayParser
new controller = record {
  controller = controller;
  pending = [];
  state = ParseState.scan;
  framebuffer = replicate framebuffer_size 0;
  sh1106_pages = 0;
  sh1106_frame_started = false;
  sh1106_last_page_command = none;
}

-- What one of the `match` arms of `push` leaves: its `bool`, and the two objects that it changed.
pub record Step : Type 0 where
  pub progressed : Bool
  pub parser : DisplayParser
  pub update : ParseUpdate
