-- ===== src/Protocol/Wire.antt =====
-- src/display_protocol.rs: what a display driver sends, as `README.md` and the tests of the parser
-- describe it: an independent account of the messages, by which the parser is judged.
pub mod Rounds
pub mod Ssd1306
pub mod PageCommand
pub mod Sh1106
pub mod Frame
use raspberry_pi_i2c_target.Prelude.{ℕ, ◌+◌, ◌-◌, ◌*◌, ◌/◌, ◌%◌, List, ◌∷◌, [], Bytes}

-- The SSD1306 address command for a rectangle of columns and pages, and its data message.
abbrev pub rectangle_message : ℕ → ℕ → ℕ → ℕ → Bytes → Bytes
rectangle_message x width page pages pixels =
    0x00 ∷ 0x21 ∷ x ∷ (x + width - 1) ∷ 0x22 ∷ page ∷ (page + pages - 1) ∷ 0x40 ∷ pixels

-- The SH1106 page command for a whole visible page, and its data message.
abbrev pub page_message : ℕ → Bytes → Bytes
page_message page pixels = 0x00 ∷ (0xb0 + page) ∷ 0x02 ∷ 0x10 ∷ 0x40 ∷ pixels

-- The two bytes of a column command, for a column of the controller's memory.
abbrev pub low_nibble : ℕ → ℕ
low_nibble column = column % 16

abbrev pub high_nibble : ℕ → ℕ
high_nibble column = 0x10 + column / 16

-- The SH1106 page command with its last and first column, and its data message. The visible
-- columns stand two columns in.
abbrev pub columns_message : ℕ → ℕ → ℕ → Bytes → Bytes
columns_message page x width pixels =
    0x00
    ∷ (0xb0 + page)
    ∷ low_nibble (x + width + 1)
    ∷ high_nibble (x + width + 1)
    ∷ low_nibble (x + 2)
    ∷ high_nibble (x + 2)
    ∷ 0x40
    ∷ pixels
