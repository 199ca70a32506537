-- ===== src/Window.antt =====
-- src/sdl_display.rs: the pixels that `SdlDisplay::render` writes into its texture.
pub mod Turned
pub mod Drawn
pub mod Input
pub mod Display
use raspberry_pi_i2c_target.Prelude.{
  ℕ, zero, suc, ◌+◌, ◌-◌, ◌*◌, ◌/◌, ◌%◌, ◌^◌, ◌==◌, bit_and, List, [], ◌∷◌, get_or, Bytes,
  if◌then◌else◌,
}
use raspberry_pi_i2c_target.Protocol.State.{display_width, display_height}

abbrev pub pixel_off : ℕ
pixel_off = 0xff000000

abbrev pub pixel_on : ℕ
pixel_on = 0xfff2f2f2

-- The color of `byte & (1 << bit) != 0`.
unfoldable pub color_of : (byte bit : ℕ) → ℕ
color_of byte bit = if bit_and byte (2 ^ bit) == 0 then pixel_off else pixel_on

-- The body of the inner loop: the color of the pixel at `output_x` and `output_y`.
unfoldable pub output_color : Bytes → (output_y output_x : ℕ) → ℕ
output_color framebuffer output_y output_x =
    let source_y = display_height - 1 - output_y in
    let source_x = display_width - 1 - output_x in
    color_of (get_or framebuffer (source_y / 8 * display_width + source_x) 0) (source_y % 8)

-- `for output_x in 0..DISPLAY_WIDTH`, from column `output_x` with `left` columns to go.
unfoldable pub row_colors : (left : ℕ) → Bytes → (output_y output_x : ℕ) → List ℕ
row_colors zero framebuffer output_y output_x = []
row_colors (suc left) framebuffer output_y output_x =
    output_color framebuffer output_y output_x ∷ row_colors left framebuffer output_y (output_x + 1)

-- `for output_y in 0..DISPLAY_HEIGHT`, from row `output_y` with `left` rows to go.
unfoldable pub texture_rows : (left : ℕ) → Bytes → (output_y : ℕ) → List (List ℕ)
texture_rows zero framebuffer output_y = []
texture_rows (suc left) framebuffer output_y =
    row_colors display_width framebuffer output_y 0 ∷ texture_rows left framebuffer (output_y + 1)

-- The texture behind both loops, row by row.
unfoldable pub texture : Bytes → List (List ℕ)
texture framebuffer = texture_rows display_height framebuffer 0
