-- ===== src/Window/Display/Owned.antt =====
-- src/sdl_display.rs: what `SdlDisplay::new` holds of SDL when it returns.
use raspberry_pi_i2c_target.Prelude.{
  ℕ, Bool, true, false, ◌≡◌, refl, ap, ◌∙◌, List, replicate, Bool-cases, inl, inr, if◌then◌else◌,
  Outcome, ok, err, panic, out_of_fuel, Bytes,
}
use raspberry_pi_i2c_target.Text.{String}
use raspberry_pi_i2c_target.Window.{texture}
use raspberry_pi_i2c_target.Window.Input.{Held}
use raspberry_pi_i2c_target.Window.Display.{
  Video, has_nul, sdl_init_video, sdl_fails, leave, show, render, quit_window, quit_renderer,
  drop_display, first_render, with_renderer, create_renderer_for, with_window, with_video,
  new_display,
}

-- What the program holds of SDL.
pub record Owned : Type 0 where
  pub video : Bool
  pub window : Bool
  pub renderer : Bool
  pub texture_made : Bool

abbrev pub owned_flags : (video window renderer texture_made : Bool) → Owned
owned_flags video window renderer texture_made = record {
  video = video;
  window = window;
  renderer = renderer;
  texture_made = texture_made;
}

abbrev pub nothing : Owned
nothing = owned_flags false false false false

abbrev pub everything : Owned
everything = owned_flags true true true true

-- A call that makes something does so where it succeeds, a call that destroys it takes it away, and
-- no other call changes what is held.
pub record Resources (v : Video) : Type 0 where
  pub owned : v.World → Owned
  pub init_owns :
      (flags : ℕ) (w : v.World)
      → owned (v.init flags w).1
        ≡ (if (v.init flags w).0 then record (owned w) { video = true } else owned w)
  pub quit_owns : (w : v.World) → owned (v.quit w) ≡ record (owned w) { video = false }
  pub window_owns :
      (title : String) (x y width height flags : ℕ) (w : v.World)
      → owned (v.create_window title x y width height flags w).1 ≡ (
          if (v.create_window title x y width height flags w).0
          then record (owned w) { window = true }
          else owned w)
  pub destroy_window_owns :
      (w : v.World) → owned (v.destroy_window w) ≡ record (owned w) { window = false }
  pub renderer_owns :
      (flags : ℕ) (w : v.World)
      → owned (v.create_renderer flags w).1
        ≡ (if (v.create_renderer flags w).0 then record (owned w) { renderer = true } else owned w)
  pub destroy_renderer_owns :
      (w : v.World) → owned (v.destroy_renderer w) ≡ record (owned w) { renderer = false }
  pub texture_owns :
      (format access width height : ℕ) (w : v.World)
      → owned (v.create_texture format access width height w).1 ≡ (
          if (v.create_texture format access width height w).0
          then record (owned w) { texture_made = true }
          else owned w)
  pub destroy_texture_owns :
      (w : v.World) → owned (v.destroy_texture w) ≡ record (owned w) { texture_made = false }
  pub error_owns : (w : v.World) → owned (v.get_error w).1 ≡ owned w
  pub size_owns :
      (width height : ℕ) (w : v.World) → owned (v.set_logical_size width height w).1 ≡ owned w
  pub lock_owns : (w : v.World) → owned (v.lock_texture w).1 ≡ owned w
  pub write_owns : (rows : List (List ℕ)) (w : v.World) → owned (v.write_rows rows w) ≡ owned w
  pub unlock_owns : (w : v.World) → owned (v.unlock_texture w) ≡ owned w
  pub color_owns :
      (red green blue alpha : ℕ) (w : v.World)
      → owned (v.set_draw_color red green blue alpha w) ≡ owned w
  pub clear_owns : (w : v.World) → owned (v.clear w).1 ≡ owned w
  pub copy_owns : (w : v.World) → owned (v.copy w).1 ≡ owned w
  pub present_owns : (w : v.World) → owned (v.present w) ≡ owned w

-- What `new` holds where it fails, with SDL ready.
abbrev pub left_over : String → Owned
left_over title = owned_flags (has_nul title) false false false

module _ (v : Video) (r : Resources v) where
  -- A display that is given has all that it needs, and where there is an error `rest` is held; there
  -- is no panic.
  abbrev pub Holds : {A : Type 0} → Owned → Owned → Outcome A × v.World → Type 0
  Holds all rest (ok a, w) = r.owned w ≡ all
  Holds all rest (err e, w) = r.owned w ≡ rest
  Holds all rest (panic, w) = ⊥
  Holds all rest (out_of_fuel, w) = ⊥

  -- A failure behind a call that leaves `held`, and cleans that up.
  sdl_fails-Holds :
      (held rest : Owned) (context : String) (cleanup : v.World → v.World) (w : v.World)
      → r.owned w ≡ held
      → ((u : v.World) → r.owned u ≡ held → r.owned (cleanup u) ≡ rest)
      → Holds {A = Held} everything rest (sdl_fails v {A = Held} context cleanup w)
  unfolding sdl_fails
  sdl_fails-Holds held rest context cleanup w e h = h (v.get_error w).1 (r.error_owns w ∙ e)

  show-Holds : (all : Owned) (w : v.World) → r.owned w ≡ all → Holds all all (show v w)
  unfolding show sdl_fails
  show-Holds all w h =
      let w1 = v.set_draw_color 0 0 0 255 w in
      let w2 = (v.clear w1).1 in
      let cleared : r.owned w2 ≡ all = r.clear_owns w1 ∙ r.color_owns 0 0 0 255 w ∙ h in
      elim (Bool-cases (v.clear w1).0) [
        | inr failed ↦ rw failed (r.error_owns w2 ∙ cleared)
        | inl done ↦ elim (Bool-cases (v.copy w2).0) [
          | inr failed ↦ rw (done, failed) (r.error_owns (v.copy w2).1 ∙ r.copy_owns w2 ∙ cleared)
          | inl copied ↦ rw (done, copied) (r.present_owns (v.copy w2).1 ∙ r.copy_owns w2 ∙ cleared)
        ]
      ]

  render-Holds :
      (all : Owned) (framebuffer : Bytes) (w : v.World)
      → r.owned w ≡ all
      → Holds all all (render v framebuffer w)
  unfolding render sdl_fails
  render-Holds all framebuffer w h =
      let w1 = (v.lock_texture w).1 in
      let locked : r.owned w1 ≡ all = r.lock_owns w ∙ h in
      elim (Bool-cases (v.lock_texture w).0) [
        | inr failed ↦ rw failed (r.error_owns w1 ∙ locked)
        | inl done ↦ rw done (
            show-Holds all (v.unlock_texture (v.write_rows (texture framebuffer) w1)) (
              r.unlock_owns (v.write_rows (texture framebuffer) w1)
              ∙ r.write_owns (texture framebuffer) w1
              ∙ locked))
      ]

  first_render-Holds :
      (run : Outcome {0} Unit × v.World)
      → Holds everything everything run
      → Holds everything nothing (first_render v run)
  unfolding first_render drop_display
  first_render-Holds (ok a, w) h = h
  first_render-Holds (err e, w) h =
      simp (r.quit_owns, r.destroy_window_owns, r.destroy_renderer_owns, r.destroy_texture_owns)
  first_render-Holds (panic, w) h = absurd h
  first_render-Holds (out_of_fuel, w) h = absurd h

  quit_renderer-owns :
      (w : v.World)
      → r.owned w ≡ owned_flags true true true false
      → r.owned (quit_renderer v w) ≡ nothing
  quit_renderer-owns w h = simp (r.quit_owns, r.destroy_window_owns, r.destroy_renderer_owns, h)

  quit_window-owns :
      (w : v.World)
      → r.owned w ≡ owned_flags true true false false
      → r.owned (quit_window v w) ≡ nothing
  quit_window-owns w h = simp (r.quit_owns, r.destroy_window_owns, h)

  with_renderer-Holds :
      (w : v.World)
      → r.owned w ≡ owned_flags true true true false
      → Holds everything nothing (with_renderer v w)
  unfolding with_renderer
  with_renderer-Holds w h =
      let w1 = (v.set_logical_size 128 64 w).1 in
      let sized = r.size_owns 128 64 w ∙ h in
      let made = v.create_texture 0x1636_2004 1 128 64 w1 in
      let owns = r.texture_owns 0x1636_2004 1 128 64 w1 in
      elim (Bool-cases (v.set_logical_size 128 64 w).0) [
        | inr failed ↦ rw failed (
            sdl_fails-Holds (owned_flags true true true false) nothing
              "SDL logical-size configuration failed" (quit_renderer v) w1 sized quit_renderer-owns)
        | inl done ↦ elim (Bool-cases made.0) [
          | inr failed ↦
              rw (done, failed)
                (sdl_fails-Holds (owned_flags true true true false) nothing
                  "SDL streaming-texture creation failed" (quit_renderer v) made.1
                  (rw failed at owns ∙ sized) quit_renderer-owns)
          | inl got ↦
              rw (done, got)
                (first_render-Holds (render v (replicate 1024 0) made.1) (
                  render-Holds everything (replicate 1024 0) made.1
                    (rw got at owns ∙ ap (λ (o : Owned). record o { texture_made = true }) sized)))
        ]
      ]

  -- One attempt to make a renderer.
  renderer-owns :
      (flags : ℕ) (w : v.World)
      → r.owned w ≡ owned_flags true true false false
      → r.owned (v.create_renderer flags w).1
        ≡ owned_flags true true (v.create_renderer flags w).0 false
  renderer-owns flags w h = elim (Bool-cases (v.create_renderer flags w).0) [
    | inr failed ↦ rw failed (rw failed at (r.renderer_owns flags w) ∙ h)
    | inl made ↦
        rw made (
          rw made at (r.renderer_owns flags w) ∙ ap (λ (o : Owned). record o { renderer = true }) h)
  ]

  create_renderer_for-owns :
      (vsync : Bool) (w : v.World)
      → r.owned w ≡ owned_flags true true false false
      → r.owned (create_renderer_for v vsync w).1
        ≡ owned_flags true true (create_renderer_for v vsync w).0 false
  unfolding create_renderer_for
  create_renderer_for-owns true w h =
      let first = v.create_renderer 6 w in
      elim (Bool-cases first.0) [
        | inl made ↦ rw made (renderer-owns 6 w h ∙ (rw made refl))
        | inr failed ↦ rw failed (renderer-owns 6 w h ∙ (rw failed refl))
      ]
  create_renderer_for-owns false w h =
      let first = v.create_renderer 2 w in
      elim (Bool-cases first.0) [
        | inl made ↦ rw made (renderer-owns 2 w h ∙ (rw made refl))
        | inr failed ↦ rw failed (renderer-owns 1 first.1 (renderer-owns 2 w h ∙ (rw failed refl)))
      ]

  with_window-Holds :
      (vsync : Bool) (w : v.World)
      → r.owned w ≡ owned_flags true true false false
      → Holds everything nothing (with_window v vsync w)
  unfolding with_window
  with_window-Holds vsync w h =
      let made = create_renderer_for v vsync w in
      let owns = create_renderer_for-owns vsync w h in
      elim (Bool-cases made.0) [
        | inr failed ↦ rw failed (
            sdl_fails-Holds (owned_flags true true false false) nothing
              "SDL renderer creation failed" (quit_window v) made.1 (owns ∙ rw failed refl)
              quit_window-owns)
        | inl got ↦ rw got (with_renderer-Holds made.1 (owns ∙ rw got refl))
      ]

  with_video-Holds :
      (title : String) (vsync : Bool) (w : v.World)
      → r.owned w ≡ owned_flags true false false false
      → Holds everything (left_over title) (with_video v title vsync w)
  unfolding with_video
  with_video-Holds title vsync w h =
      let made = v.create_window title 0x2fff_0000 0x2fff_0000 768 384 0x24 w in
      let owns = r.window_owns title 0x2fff_0000 0x2fff_0000 768 384 0x24 w in
      elim (Bool-cases (has_nul title)) [
        | inl nul ↦ rw nul h
        | inr plain ↦ elim (Bool-cases made.0) [
          | inr failed ↦
              rw (plain, failed)
                (sdl_fails-Holds (owned_flags true false false false) nothing
                  "SDL window creation failed" v.quit made.1 (rw failed at owns ∙ h)
                  (λ u e. r.quit_owns u ∙ rw e refl))
          | inl got ↦
              rw (plain, got)
                (with_window-Holds vsync made.1
                  (rw got at owns ∙ ap (λ (o : Owned). record o { window = true }) h))
        ]
      ]

  -- If nothing of SDL is held, then `new` does not panic. Where it gives a display, SDL is ready and
  -- there are a window, a renderer and a texture. Where it fails, nothing is held, with one
  -- exception: a title with a NUL, behind a successful `SDL_Init`, leaves SDL ready.
  pub new_display-Holds :
      (title : String) (vsync : Bool) (w : v.World)
      → r.owned w ≡ nothing
      → Holds everything
          (if (v.init sdl_init_video w).0 then left_over title else nothing)
          (new_display v title vsync w)
  unfolding new_display
  new_display-Holds title vsync w h =
      let ready = v.init sdl_init_video w in
      let owns = r.init_owns sdl_init_video w in
      elim (Bool-cases ready.0) [
        | inr failed ↦ rw failed (
            sdl_fails-Holds nothing nothing "SDL video initialization failed" (leave v) ready.1
              (rw failed at owns ∙ h) (λ u e. e))
        | inl done ↦ rw done (
            with_video-Holds title vsync ready.1
              (rw done at owns ∙ ap (λ (o : Owned). record o { video = true }) h))
      ]
