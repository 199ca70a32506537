-- ===== src/Tests/OfWindow.antt =====
-- src/sdl_display.rs on a small rectangle.
use raspberry_pi_i2c_target.Buttons.{SdlInput, released}
use raspberry_pi_i2c_target.Window.Display.{
  Video, has_nul, new_display, with_video, with_window, create_renderer_for, with_renderer, render,
  show, sdl_fails, first_render, drop_display,
}
use raspberry_pi_i2c_target.Window.Display.Owned.{
  Owned, nothing, everything, Resources, Holds, left_over, new_display-Holds,
}
use raspberry_pi_i2c_target.Window.Input.{
  Position, is_left_of, mouse_buttons_for_x, Sdl, Held, poll_input,
}
use raspberry_pi_i2c_target.Window.Input.Polled.{
  head, tail, Events, asks_quit, mouse_buttons_for_x_lem, poll_input-Reports,
}
use raspberry_pi_i2c_target.Prelude.{
  true, false, none, ℕ, refl, List, not, ◌+◌, ◌-◌, ◌*◌, ◌/◌, ◌%◌, ◌<◌, ◌≡◌, arith, [], ◌∷◌, get_or,
  Bytes, replicate, ok, bit_at,
}
use raspberry_pi_i2c_target.Protocol.State.{DisplayController}
use raspberry_pi_i2c_target.Protocol.Push.{Pushed, push}
use raspberry_pi_i2c_target.Protocol.Wire.{rectangle_message}
use raspberry_pi_i2c_target.Tests.OfProtocol.{start, start-IsIdle, pixels, pixels-IsRectangle}
use raspberry_pi_i2c_target.Window.{texture}
use raspberry_pi_i2c_target.Window.Turned.{light, texture_turned}
use raspberry_pi_i2c_target.Window.Drawn.{texture-rectangle_message}

texture-rectangle_message_example :
    (out : Pushed) × (push (start DisplayController.ssd1306) (rectangle_message 10 3 2 2 pixels)
      ≡ ok out)
    × ((o c b : ℕ)
        → o < 2
        → c < 3
        → b < 8
        → get_or
            (get_or (texture out.parser.framebuffer) (63 - ((2 + o) * 8 + b)) [])
            (127 - (10 + c))
            0
          ≡ light (bit_at (get_or pixels (o * 3 + c) 0) b))
texture-rectangle_message_example =
    texture-rectangle_message (start DisplayController.ssd1306) 10 3 2 2 pixels
      (start-IsIdle DisplayController.ssd1306) pixels-IsRectangle

abbrev framebuffer : Bytes
framebuffer = 0x55 ∷ replicate 1023 0

texture_turned_example :
    get_or (get_or (texture framebuffer) (63 - 2) []) (127 - 0) 0
    ≡ light (bit_at (get_or framebuffer (2 / 8 * 128 + 0) 0) (2 % 8))
texture_turned_example = texture_turned framebuffer 0 2 (omega arith) (omega arith)

-- The world is the queue of events.
abbrev pressed : Sdl
pressed = record {
  World = List ℕ;
  poll_event = λ w. (head w, tail w);
  mouse_state = λ w. ((1, Position.pos 250), w);
  window_width = λ w. (300, w);
}

abbrev queue : Events pressed
queue = record { waiting = λ w. w; poll_head = λ w. refl; poll_tail = λ w. refl }

poll_input-Reports_example :
    (input : SdlInput) × (held : Held) × ((poll_input pressed 3
        (record { mouse_buttons = released; reported_buttons = released })
        (0x300 ∷ 0x100 ∷ [])).0
      ≡ ok (input, held))
    × (input.close ≡ asks_quit (0x300 ∷ 0x100 ∷ []))
    × (held.mouse_buttons ≡ input.buttons)
    × (held.reported_buttons ≡ input.buttons)
poll_input-Reports_example =
    poll_input-Reports pressed queue 3
      (record { mouse_buttons = released; reported_buttons = released }) (0x300 ∷ 0x100 ∷ [])
      (omega arith)

mouse_buttons_for_x_lem_example :
    ((mouse_buttons_for_x (Position.pos 199) 300).left
      ≡ is_left_of (Position.pos 199) (300 * 2 / 3))
    × ((mouse_buttons_for_x (Position.pos 199) 300).right
        ≡ not (is_left_of (Position.pos 199) (300 / 3)))
mouse_buttons_for_x_lem_example = mouse_buttons_for_x_lem (Position.pos 199) 300

-- SDL that can do everything but copy a texture.
abbrev video : Video
video = record {
  World = Owned;
  init = λ flags w. (true, record w { video = true });
  quit = λ w. record w { video = false };
  get_error = λ w. (none, w);
  create_window = λ title x y width height flags w. (true, record w { window = true });
  destroy_window = λ w. record w { window = false };
  create_renderer = λ flags w. (true, record w { renderer = true });
  destroy_renderer = λ w. record w { renderer = false };
  set_logical_size = λ width height w. (true, w);
  create_texture = λ format access width height w. (true, record w { texture_made = true });
  destroy_texture = λ w. record w { texture_made = false };
  lock_texture = λ w. (true, w);
  write_rows = λ rows w. w;
  unlock_texture = λ w. w;
  set_draw_color = λ red green blue alpha w. w;
  clear = λ w. (true, w);
  copy = λ w. (false, w);
  present = λ w. w;
}

abbrev resources : Resources video
resources = record {
  owned = λ w. w;
  init_owns = λ flags w. refl;
  quit_owns = λ w. refl;
  window_owns = λ title x y width height flags w. refl;
  destroy_window_owns = λ w. refl;
  renderer_owns = λ flags w. refl;
  destroy_renderer_owns = λ w. refl;
  texture_owns = λ format access width height w. refl;
  destroy_texture_owns = λ w. refl;
  error_owns = λ w. refl;
  size_owns = λ width height w. refl;
  lock_owns = λ w. refl;
  write_owns = λ rows w. refl;
  unlock_owns = λ w. refl;
  color_owns = λ red green blue alpha w. refl;
  clear_owns = λ w. refl;
  copy_owns = λ w. refl;
  present_owns = λ w. refl;
}

new_display-Holds_example :
    Holds video resources everything
      (left_over "Display")
      (new_display video "Display" true nothing)
new_display-Holds_example = new_display-Holds video resources "Display" true nothing refl

-- The display that was made is given back again.
new_display-fails : (new_display video "Display" true nothing).1 ≡ nothing
unfolding new_display with_video has_nul with_window create_renderer_for with_renderer render show
    sdl_fails first_render drop_display
new_display-fails = refl
