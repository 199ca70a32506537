-- ===== src/Window/Display.antt =====
-- src/sdl_display.rs: `SdlDisplay::new`, `render` and `drop`, over the calls of SDL.
pub mod Owned
use raspberry_pi_i2c_target.Prelude.{
  ℕ, Bool, true, false, not, ◌&&◌, ◌||◌, ◌==◌, Option, none, some, List, replicate, bit_or,
  if◌then◌else◌, Outcome, ok, err, panic, out_of_fuel, ErrorKind, Error, Bytes, ◌>?◌, ◌>!◌,
}
use Prim.Native.Char.{code}
use raspberry_pi_i2c_target.Text.{String, ◌<>◌}
use raspberry_pi_i2c_target.Driver.Settings.{invalid_input}
use raspberry_pi_i2c_target.Driver.Commands.{fails}
use raspberry_pi_i2c_target.Buttons.{released}
use raspberry_pi_i2c_target.Window.{texture}
use raspberry_pi_i2c_target.Window.Input.{Held}

-- The calls of SDL, of the one window that the program makes. A call that may fail gives whether it
-- has succeeded: whether it returned 0, or a pointer that is not null.
pub record Video : Type 1 where
  pub World : Type 0
  pub init : (flags : ℕ) → World → Bool × World
  pub quit : World → World
  -- the text of `SDL_GetError`, or none for a null pointer
  pub get_error : World → Option String × World
  pub create_window : (title : String) (x y width height flags : ℕ) → World → Bool × World
  pub destroy_window : World → World
  pub create_renderer : (flags : ℕ) → World → Bool × World
  pub destroy_renderer : World → World
  pub set_logical_size : (width height : ℕ) → World → Bool × World
  pub create_texture : (format access width height : ℕ) → World → Bool × World
  pub destroy_texture : World → World
  pub lock_texture : World → Bool × World
  -- the writes of the rows, each at its multiple of the pitch
  pub write_rows : List (List ℕ) → World → World
  pub unlock_texture : World → World
  pub set_draw_color : (red green blue alpha : ℕ) → World → World
  pub clear : World → Bool × World
  pub copy : World → Bool × World
  pub present : World → World

abbrev pub sdl_init_video : ℕ
sdl_init_video = 0x20

abbrev sdl_windowpos_centered : ℕ
sdl_windowpos_centered = 0x2fff_0000

abbrev sdl_window_shown : ℕ
sdl_window_shown = 0x4

abbrev sdl_window_resizable : ℕ
sdl_window_resizable = 0x20

abbrev sdl_renderer_software : ℕ
sdl_renderer_software = 0x1

abbrev sdl_renderer_accelerated : ℕ
sdl_renderer_accelerated = 0x2

abbrev sdl_renderer_presentvsync : ℕ
sdl_renderer_presentvsync = 0x4

abbrev sdl_pixelformat_argb8888 : ℕ
sdl_pixelformat_argb8888 = 0x1636_2004

abbrev sdl_textureaccess_streaming : ℕ
sdl_textureaccess_streaming = 1

-- `CString::new` refuses such a title.
unfoldable pub has_nul : String → Bool
has_nul String.[] = false
has_nul (String.◌∷◌ c s) = code c == 0 || has_nul s

abbrev detail_of : Option String → String
detail_of none = "unknown SDL error"
detail_of (some detail) = detail

module _ (v : Video) where
  -- `sdl_error(context)`, and then the calls that clean up
  unfoldable pub sdl_fails :
      {A : Type 0} → String → (v.World → v.World) → v.World → Outcome A × v.World
  sdl_fails context cleanup w = v.get_error w >! λ detail w.
      (fails ErrorKind.other (context <> ": " <> detail_of detail), cleanup w)

  abbrev pub leave : v.World → v.World
  leave w = w

  -- The lines of `render` behind `SDL_UnlockTexture`.
  unfoldable pub show : v.World → Outcome {0} Unit × v.World
  show w = v.clear (v.set_draw_color 0x00 0x00 0x00 0xff w) >! λ cleared w.
      if not cleared
      then sdl_fails "SDL display clear failed" leave w
      else v.copy w >! λ copied w.
          if not copied then sdl_fails "SDL texture copy failed" leave w else (ok tt, v.present w)

  unfoldable pub render : Bytes → v.World → Outcome {0} Unit × v.World
  render framebuffer w = v.lock_texture w >! λ locked w.
      if not locked
      then sdl_fails "SDL streaming-texture lock failed" leave w
      else show (v.unlock_texture (v.write_rows (texture framebuffer) w))

  abbrev pub quit_window : v.World → v.World
  quit_window w = v.quit (v.destroy_window w)

  abbrev pub quit_renderer : v.World → v.World
  quit_renderer w = quit_window (v.destroy_renderer w)

  -- `drop` of a display, of which no pointer is null
  unfoldable pub drop_display : v.World → v.World
  drop_display w = quit_renderer (v.destroy_texture w)

  -- `display.render(…)?` and `Ok(display)`
  unfoldable pub first_render : Outcome {0} Unit × v.World → Outcome Held × v.World
  first_render (ok a, w) =
      (ok (record { mouse_buttons = released; reported_buttons = released }), w)
  first_render (err error, w) = (err error, drop_display w)
  first_render (panic, w) = (panic, drop_display w)
  first_render (out_of_fuel, w) = (out_of_fuel, w)

  -- The lines of `new` behind the renderer's creation.
  unfoldable pub with_renderer : v.World → Outcome Held × v.World
  with_renderer w = v.set_logical_size 128 64 w >! λ sized w.
      if not sized
      then sdl_fails "SDL logical-size configuration failed" quit_renderer w
      else v.create_texture sdl_pixelformat_argb8888 sdl_textureaccess_streaming 128 64 w
        >! λ made w.
            if not made
            then sdl_fails "SDL streaming-texture creation failed" quit_renderer w
            else first_render (render (replicate 1024 0) w)

  -- The two attempts to make a renderer.
  unfoldable pub create_renderer_for : (vsync : Bool) → v.World → Bool × v.World
  create_renderer_for vsync w =
      v.create_renderer
        (bit_or sdl_renderer_accelerated (if vsync then sdl_renderer_presentvsync else 0)) w
      >! λ made w.
          if not made && not vsync then v.create_renderer sdl_renderer_software w else (made, w)

  -- The lines of `new` behind the window's creation.
  unfoldable pub with_window : (vsync : Bool) → v.World → Outcome Held × v.World
  with_window vsync w = create_renderer_for vsync w >! λ made w.
      if not made then sdl_fails "SDL renderer creation failed" quit_window w else with_renderer w

  -- The lines of `new` behind `SDL_Init`.
  unfoldable pub with_video : (title : String) (vsync : Bool) → v.World → Outcome Held × v.World
  with_video title vsync w =
      if has_nul title
      then (invalid_input "SDL window title must not contain a NUL byte", w)
      else v.create_window title sdl_windowpos_centered sdl_windowpos_centered 768 384
          (bit_or sdl_window_shown sdl_window_resizable) w
        >! λ made w.
            if not made
            then sdl_fails "SDL window creation failed" v.quit w
            else with_window vsync w

  -- `SdlDisplay::new`; the value is what the display keeps of the mouse.
  unfoldable pub new_display : (title : String) (vsync : Bool) → v.World → Outcome Held × v.World
  new_display title vsync w = v.init sdl_init_video w >! λ ready w.
      if not ready
      then sdl_fails "SDL video initialization failed" leave w
      else with_video title vsync w
