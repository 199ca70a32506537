-- ===== src/VirtualDisplay/Runtime.antt =====
-- src/bin/virtual-display.rs: `DisplayRuntime`. A `u64` total wraps at 2 ^ 64.
pub mod Fresh
pub mod Ends
pub mod Driven
use raspberry_pi_i2c_target.Prelude.{
  add_u64, ℕ, zero, suc, ◌+◌, ◌*◌, ◌^◌, ◌%◌, Bool, true, false, Option, none, some, [], ◌++◌, ltb,
  leb, length, if◌then◌else◌, Outcome, ok, err, out_of_fuel, Error, Bytes, ◌>?◌, ◌>!◌, map_error,
}
use raspberry_pi_i2c_target.Text.{String, ◌<>◌, decimal}
use raspberry_pi_i2c_target.Buttons.{SdlInput}
use raspberry_pi_i2c_target.Buttons.Outputs.{GpioButtonOutputs, request_lines, set_outputs}
use raspberry_pi_i2c_target.VirtualDisplay.Platform.{Platform}
use raspberry_pi_i2c_target.Protocol.State.{DisplayController, ParseUpdate, DisplayParser, new}
use raspberry_pi_i2c_target.Protocol.Push.{presents, Pushed, push}

pub record DisplayRuntime : Type 0 where
  pub parser : DisplayParser
  pub button_outputs : Option GpioButtonOutputs
  pub visual_renders : ℕ
  pub completed_frames : ℕ
  pub discarded_bytes : ℕ
  pub display_updates : ℕ
  pub timeout_renders : ℕ
  pub partial_frame_deadline : Option ℕ

-- The milliseconds of `PARTIAL_FRAME_TIMEOUT`.
abbrev pub partial_frame_timeout : ℕ
partial_frame_timeout = 75

-- The lines of the loop of `push` that add the update to the totals.
unfoldable pub count_update : DisplayRuntime → Pushed → DisplayRuntime
count_update r o = record r {
  parser = o.parser;
  completed_frames = add_u64 r.completed_frames o.update.completed_frames;
  discarded_bytes = add_u64 r.discarded_bytes o.update.discarded_bytes;
  display_updates = add_u64 r.display_updates o.update.display_updates;
}

-- The lines behind a `render` of a frame.
unfoldable pub presented : DisplayRuntime → DisplayRuntime
presented r = record r {
  visual_renders = add_u64 r.visual_renders 1;
  partial_frame_deadline = none;
}

-- The lines behind a `render` after a timeout.
unfoldable pub timed_out : DisplayRuntime → DisplayRuntime
timed_out r = record r {
  visual_renders = add_u64 r.visual_renders 1;
  timeout_renders = add_u64 r.timeout_renders 1;
  partial_frame_deadline = none;
}

-- `self.partial_frame_deadline.get_or_insert(now + PARTIAL_FRAME_TIMEOUT)`
unfoldable pub arm : ℕ → Option ℕ → Option ℕ
arm now none = some (now + partial_frame_timeout)
arm now (some deadline) = some deadline

-- `push` calls the parser at most so often.
abbrev pub rounds_for : DisplayParser → Bytes → ℕ
rounds_for p input = 4 * length (p.pending ++ input) + 4

module _ (f : Platform) where
  abbrev pub cannot_update : Error → Error
  cannot_update error = record error {
    message = "cannot update button output GPIOs: " <> error.message;
  }

  -- `if input.close { RUNNING.store(false) }` and `Ok(())`
  abbrev pub close_if :
      Bool → DisplayRuntime → f.system.World → Outcome DisplayRuntime × f.system.World
  close_if close r w = if close then (ok r, f.stop w) else (ok r, w)

  abbrev pub update_outputs :
      Option GpioButtonOutputs
      → SdlInput
      → DisplayRuntime
      → f.system.World
      → Outcome DisplayRuntime × f.system.World
  update_outputs none input r w = close_if input.close r w
  update_outputs (some old) input r w =
      map_error cannot_update (set_outputs f.chip old input.buttons w) >? λ outputs w.
      close_if input.close (record r { button_outputs = some outputs }) w

  unfoldable pub poll_input :
      DisplayRuntime → f.system.World → Outcome DisplayRuntime × f.system.World
  poll_input r w = f.poll_input w >! λ input w. update_outputs r.button_outputs input r w

  unfoldable pub render_late :
      DisplayRuntime → f.system.World → Outcome DisplayRuntime × f.system.World
  render_late r w = f.render r.parser.framebuffer w >? λ _ w. poll_input (timed_out r) w

  -- The test of `poll_idle`; the clock is read only where there is a deadline.
  abbrev pub check_deadline :
      Option ℕ → DisplayRuntime → f.system.World → Outcome DisplayRuntime × f.system.World
  check_deadline none r w = poll_input r w
  check_deadline (some deadline) r w =
      f.system.now w >! λ now w. if leb deadline now then render_late r w else poll_input r w

  unfoldable pub poll_idle :
      DisplayRuntime → f.system.World → Outcome DisplayRuntime × f.system.World
  poll_idle r w = check_deadline r.partial_frame_deadline r w

  -- The loop's last round, and `self.poll_idle()`.
  unfoldable pub rest_of_push :
      Bool → DisplayRuntime → f.system.World → Outcome DisplayRuntime × f.system.World
  rest_of_push changed r w =
      if changed
      then (f.system.now w >! λ now w.
          poll_idle (record r { partial_frame_deadline = arm now r.partial_frame_deadline }) w)
      else poll_idle r w

  -- The loop of `push`, on fuel.
  unfoldable pub push_rounds :
      (fuel : ℕ) → Bytes → DisplayRuntime → f.system.World → Outcome DisplayRuntime × f.system.World
  push_rounds zero input r w = (out_of_fuel, w)
  push_rounds (suc fuel) input r w = (push r.parser input, w) >? λ o w.
      if presents o.update
      then (f.render o.parser.framebuffer w >? λ _ w.
          push_rounds fuel [] (presented (count_update r o)) w)
      else rest_of_push (ltb 0 o.update.display_updates) (count_update r o) w

  unfoldable pub push_input :
      DisplayRuntime → Bytes → f.system.World → Outcome DisplayRuntime × f.system.World
  push_input r input w = push_rounds (rounds_for r.parser input) input r w

  abbrev pub cannot_request : ℕ → ℕ → Error → Error
  cannot_request left right error = record error {
    message =
        "cannot request open-drain button outputs on GPIO"
        <> decimal left
        <> "/"
        <> decimal right
        <> ": "
        <> error.message;
  }

  abbrev pub request_outputs :
      Option (ℕ × ℕ) → f.system.World → Outcome (Option GpioButtonOutputs) × f.system.World
  request_outputs none w = (ok none, w)
  request_outputs (some (left, right)) w =
      map_error (cannot_request left right) (request_lines f.chip "/dev/gpiochip0" left right w)
      >? λ outputs w. (ok (some outputs), w)

  -- `DisplayRuntime::start`
  unfoldable pub start :
      DisplayController
      → String
      → Option (ℕ × ℕ)
      → Bool
      → f.system.World
      → Outcome DisplayRuntime × f.system.World
  start controller title button_outputs vsync w = f.open_window title vsync w >? λ _ w.
      request_outputs button_outputs w >? λ outputs w. (
        ok (record {
          parser = new controller;
          button_outputs = outputs;
          visual_renders = 0;
          completed_frames = 0;
          discarded_bytes = 0;
          display_updates = 0;
          timeout_renders = 0;
          partial_frame_deadline = none;
        }),
        w,
      )
