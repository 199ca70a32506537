-- ===== src/Window/Drawn.antt =====
-- src/display_protocol.rs and src/sdl_display.rs together: a message of a display driver, as it stands
-- in the window.
use raspberry_pi_i2c_target.Prelude.{
  ℕ, ◌+◌, ◌-◌, ◌*◌, ◌/◌, ◌%◌, ◌<◌, ◌≡◌, ap, ◌∙◌, arith, [], get_or, Bytes, ok, bit_at,
}
use raspberry_pi_i2c_target.Protocol.State.{DisplayController, DisplayParser}
use raspberry_pi_i2c_target.Protocol.Push.{Pushed, push}
use raspberry_pi_i2c_target.Protocol.Wire.{rectangle_message}
use raspberry_pi_i2c_target.Protocol.Wire.Ssd1306.{IsRectangle, IsIdle, push-rectangle_message}
use raspberry_pi_i2c_target.Window.{texture}
use raspberry_pi_i2c_target.Window.Turned.{light, texture_turned}

-- When an idle SSD1306 parser has received a rectangle, its bytes stand in the window: the pixel in
-- row `b` of page `page + o` and column `x + c`, turned by half a turn, is bright where bit `b` of
-- byte `o * width + c` of the message is set, and black where it is not.
pub texture-rectangle_message :
    (p : DisplayParser) (x width page pages : ℕ) (pixels : Bytes)
    → IsIdle DisplayController.ssd1306 p
    → IsRectangle x width page pages pixels
    → (out : Pushed) × (push p (rectangle_message x width page pages pixels) ≡ ok out)
      × ((o c b : ℕ)
          → o < pages
          → c < width
          → b < 8
          → get_or
              (get_or (texture out.parser.framebuffer) (63 - ((page + o) * 8 + b)) [])
              (127 - (x + c))
              0
            ≡ light (bit_at (get_or pixels (o * width + c) 0) b))
texture-rectangle_message p x width page pages pixels idle r =
    let (out, sent, d) = push-rectangle_message p x width page pages pixels idle r in
    (
      out,
      sent,
      λ o c b ho hc hb.
          let row : ((page + o) * 8 + b) / 8 ≡ page + o = omega (arith, hb) in
          let bit : ((page + o) * 8 + b) % 8 ≡ b = omega (arith, hb) in
          texture_turned out.parser.framebuffer (x + c) ((page + o) * 8 + b)
            (omega (arith, r.columns_fit, hc)) (omega (arith, r.pages_fit, ho, hb))
          ∙ rw (row, bit) (ap (λ byte. light (bit_at byte b)) (d.inside o c ho hc)),
    )
