-- ===== src/Window/Turned.antt =====
-- src/sdl_display.rs: the window shows the framebuffer turned by half a turn.
use raspberry_pi_i2c_target.Prelude.{
  ℕ, zero, suc, ◌+◌, ◌-◌, ◌*◌, ◌/◌, ◌%◌, ◌^◌, ◌<◌, ◌≡◌, refl, ap, ◌∙◌, arith, [], get_or, Bytes,
  ◌==◌, bit_at, bit_and-pow, bit_at-lt, if◌then◌else◌,
}
use raspberry_pi_i2c_target.Window.{color_of, output_color, row_colors, texture_rows, texture}

-- The light of a bit in ARGB: a bit that is set is a bright pixel, and one that is not a black one.
abbrev pub light : ℕ → ℕ
light zero = 0xff000000
light (suc n) = 0xfff2f2f2

pow_pos : (i : ℕ) → 0 < 2 ^ i
pow_pos zero = omega arith
pow_pos (suc i) = let doubled : 2 ^ suc i ≡ 2 ^ i * 2 = omega arith in omega (arith, pow_pos i)

color_of-light : (byte bit : ℕ) → color_of byte bit ≡ light (bit_at byte bit)
unfolding color_of
color_of-light byte bit =
    rw (bit_and-pow byte bit) (go (bit_at byte bit) (2 ^ bit) (pow_pos bit) (bit_at-lt byte bit))
  where
    go :
        (b power : ℕ)
        → 0 < power
        → b < 2
        → (if b * power == 0 then 0xff000000 else 0xfff2f2f2) ≡ light b
    go zero power h l = ground arith
    go (suc zero) power h l = ground arith
    go (suc (suc b)) power h l = absurd (omega (arith, l))

get_or-row_colors :
    (left : ℕ) (framebuffer : Bytes) (y x i : ℕ)
    → i < left
    → get_or (row_colors left framebuffer y x) i 0 ≡ output_color framebuffer y (x + i)
unfolding row_colors
get_or-row_colors zero framebuffer y x i h = absurd (omega (arith, h))
get_or-row_colors (suc left) framebuffer y x zero h = ap (output_color framebuffer y) (omega arith)
get_or-row_colors (suc left) framebuffer y x (suc i) h =
    get_or-row_colors left framebuffer y (x + 1) i (omega (arith, h))
    ∙ ap (output_color framebuffer y) (omega arith)

get_or-texture_rows :
    (left : ℕ) (framebuffer : Bytes) (y i : ℕ)
    → i < left
    → get_or (texture_rows left framebuffer y) i [] ≡ row_colors 128 framebuffer (y + i) 0
unfolding texture_rows
get_or-texture_rows zero framebuffer y i h = absurd (omega (arith, h))
get_or-texture_rows (suc left) framebuffer y zero h =
    ap (λ t. row_colors 128 framebuffer t 0) (omega arith)
get_or-texture_rows (suc left) framebuffer y (suc i) h =
    get_or-texture_rows left framebuffer (y + 1) i (omega (arith, h))
    ∙ ap (λ t. row_colors 128 framebuffer t 0) (omega arith)

output_color-turned :
    (framebuffer : Bytes) (x y : ℕ)
    → x < 128
    → y < 64
    → output_color framebuffer (0 + (63 - y)) (0 + (127 - x))
      ≡ color_of (get_or framebuffer (y / 8 * 128 + x) 0) (y % 8)
unfolding output_color
output_color-turned framebuffer x y hx hy =
    let row : 63 - (0 + (63 - y)) ≡ y = omega (arith, hy) in
    let column : 127 - (0 + (127 - x)) ≡ x = omega (arith, hx) in rw (row, column) refl

-- Each of the 64 rows and 128 columns of the display stands in the texture, turned by half a turn:
-- the pixel in column `x` and row `y` is bright where bit `y % 8` of byte `x` of page `y / 8` is set,
-- and black where it is not.
pub texture_turned :
    (framebuffer : Bytes) (x y : ℕ)
    → x < 128
    → y < 64
    → get_or (get_or (texture framebuffer) (63 - y) []) (127 - x) 0
      ≡ light (bit_at (get_or framebuffer (y / 8 * 128 + x) 0) (y % 8))
unfolding texture
texture_turned framebuffer x y hx hy =
    rw (get_or-texture_rows 64 framebuffer 0 (63 - y) (omega arith)) (
      get_or-row_colors 128 framebuffer (0 + (63 - y)) 0 (127 - x) (omega arith)
      ∙ output_color-turned framebuffer x y hx hy
      ∙ color_of-light (get_or framebuffer (y / 8 * 128 + x) 0) (y % 8))
