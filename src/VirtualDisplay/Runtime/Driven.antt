-- ===== src/VirtualDisplay/Runtime/Driven.antt =====
-- src/bin/virtual-display.rs with src/gpio_buttons.rs: the GPIO lines, between the calls of
-- `DisplayRuntime`.
use raspberry_pi_i2c_target.Prelude.{
  ℕ, zero, suc, Bool, true, false, ◌≡◌, refl, Option, none, some, List, [], ◌∷◌, leb, ltb, bit_and,
  bit_or, Outcome, ok, err, panic, out_of_fuel, Error, Bytes, Bool-cases, inl, inr, map_error, ◌>?◌,
  ◌==◌, if◌then◌else◌, bit_at, take, not, ◌+◌, ◌*◌,
}
use raspberry_pi_i2c_target.Buttons.{ButtonState, SdlInput, line_bits, equal_states}
use raspberry_pi_i2c_target.Buttons.Outputs.{
  LineValues, LineRequest, LineConfigAttribute, GpioButtonOutputs, ioctl_read_write,
  gpio_v2_line_attr_id_output_values, set_outputs,
}
use raspberry_pi_i2c_target.VirtualDisplay.Platform.{Platform}
use raspberry_pi_i2c_target.Protocol.Push.{presents, push}
use raspberry_pi_i2c_target.VirtualDisplay.Runtime.{
  cannot_update, rounds_for, DisplayRuntime, count_update, presented, timed_out, arm, close_if,
  update_outputs, poll_input, render_late, check_deadline, poll_idle, rest_of_push, push_rounds,
  push_input,
}

-- The levels with which a request starts its lines: those of its attributes for output values.
abbrev pub starting_levels : List LineConfigAttribute → ℕ
starting_levels [] = 0
starting_levels (a ∷ rest) =
    let other = starting_levels rest in
    if a.attr.id == gpio_v2_line_attr_id_output_values
    then bit_or (bit_and a.attr.value a.mask) other
    else other

-- The lines that a descriptor stands for, and the level of each: 0 pulls it low, 1 lets it go.
pub record Lines : Type 0 where
  pub offsets : List ℕ
  pub level : ℕ → ℕ

-- A granted request for open-drain outputs has its first `num_lines` offsets as lines, at the levels
-- of its first `num_attrs` attributes.
abbrev pub granted : LineRequest → Lines
granted request = record {
  offsets = take request.num_lines request.offsets;
  level = bit_at (starting_levels (take request.config.num_attrs request.config.attrs));
}

-- `bits`, for the lines in `mask`.
abbrev pub with_values : LineValues → Lines → Lines
with_values v lines = record {
  offsets = lines.offsets;
  level = λ i. if bit_at v.mask i == 1 then bit_at v.bits i else lines.level i;
}

-- What linux/gpio.h says of GPIO_V2_GET_LINE_IOCTL (0xc250b407), with the flags for an output (bit 3)
-- and for an open drain (bit 6), and of GPIO_V2_LINE_SET_VALUES_IOCTL (0xc010b40f). No other call
-- changes the lines.
pub record Levels (f : Platform) : Type 0 where
  pub levels : f.system.World → (descriptor : ℕ) → Lines
  pub request_sets :
      (request : LineRequest) (descriptor : ℕ) (w : f.system.World)
      → (f.chip.get_lines 0xc250b407 request w).0 ≡ ok (some descriptor)
      → bit_at request.config.flags 3 ≡ 1
      → bit_at request.config.flags 6 ≡ 1
      → levels (f.chip.get_lines 0xc250b407 request w).1 descriptor ≡ granted request
  pub set_sets :
      (descriptor : ℕ) (v : LineValues) (w : f.system.World)
      → (f.chip.set_values descriptor 0xc010b40f v w).0 ≡ ok tt
      → levels (f.chip.set_values descriptor 0xc010b40f v w).1 descriptor
        ≡ with_values v (levels w descriptor)
  pub render_levels : (b : Bytes) (w : f.system.World) → levels (f.render b w).1 ≡ levels w
  pub now_levels : (w : f.system.World) → levels (f.system.now w).1 ≡ levels w
  pub poll_levels : (w : f.system.World) → levels (f.poll_input w).1 ≡ levels w
  pub stop_levels : (w : f.system.World) → levels (f.stop w) ≡ levels w

module _ (f : Platform) where
  -- The calls of the main loop: `push` of an input, or `poll_idle` where there is none.
  unfoldable pub run_calls :
      List (Option Bytes)
      → DisplayRuntime
      → f.system.World
      → Outcome DisplayRuntime × f.system.World
  run_calls [] r w = (ok r, w)
  run_calls (none ∷ calls) r w = poll_idle f r w >? run_calls calls
  run_calls (some input ∷ calls) r w = push_input f r input w >? run_calls calls

module _ (f : Platform) (l : Levels f) (left right : ℕ) where
  -- The descriptor stands for the two GPIOs, and a held button is a line that is pulled low.
  abbrev pub Drives : (descriptor : ℕ) → ButtonState → f.system.World → Type 0
  Drives descriptor state w =
      ((l.levels w descriptor).offsets ≡ left ∷ right ∷ [])
      × ((l.levels w descriptor).level 0 ≡ (if state.left then 0 else 1))
      × ((l.levels w descriptor).level 1 ≡ (if state.right then 0 else 1))

  -- So it is with the outputs, if there are any, and the buttons that are kept as their state.
  abbrev pub IsDriven : Option GpioButtonOutputs → f.system.World → Type 0
  IsDriven none w = Unit
  IsDriven (some outputs) w = Drives outputs.lines outputs.state w

  -- So they have in a runtime that a call returns.
  abbrev pub StaysDriven : Outcome DisplayRuntime × f.system.World → Type 0
  StaysDriven (ok r, w) = IsDriven r.button_outputs w
  StaysDriven (err e, w) = Unit
  StaysDriven (panic, w) = Unit
  StaysDriven (out_of_fuel, w) = Unit

  kept :
      (o : Option GpioButtonOutputs) (w w' : f.system.World)
      → l.levels w' ≡ l.levels w
      → IsDriven o w
      → IsDriven o w'
  kept none w w' e h = tt
  kept (some outputs) w w' e h = rw e h

  >?-driven :
      {A : Type 0} (m : Outcome A × f.system.World)
      (g : A → f.system.World → Outcome DisplayRuntime × f.system.World)
      → ((a : A) → m.0 ≡ ok a → StaysDriven (g a m.1))
      → StaysDriven (m >? g)
  >?-driven (ok a, w) g h = h a refl
  >?-driven (err e, w) g h = tt
  >?-driven (panic, w) g h = tt
  >?-driven (out_of_fuel, w) g h = tt

  close_if-driven :
      (close : Bool) (r : DisplayRuntime) (w : f.system.World)
      → IsDriven r.button_outputs w
      → StaysDriven (close_if f close r w)
  close_if-driven true r w h = kept r.button_outputs w (f.stop w) (l.stop_levels w) h
  close_if-driven false r w h = h

  -- The lines have the levels of the outputs that a call gives.
  abbrev SetsLines : Outcome GpioButtonOutputs × f.system.World → Type 0
  SetsLines (ok outputs, w) = Drives outputs.lines outputs.state w
  SetsLines (err e, w) = Unit
  SetsLines (panic, w) = Unit
  SetsLines (out_of_fuel, w) = Unit

  values_set :
      (run : Outcome {0} Unit × f.system.World) (outputs : GpioButtonOutputs)
      → (run.0 ≡ ok tt → Drives outputs.lines outputs.state run.1)
      → SetsLines (run >? λ _ w. (ok outputs, w))
  values_set (ok a, w) outputs h = h refl
  values_set (err e, w) outputs h = tt
  values_set (panic, w) outputs h = tt
  values_set (out_of_fuel, w) outputs h = tt

  bits_drive :
      (state : ButtonState)
      → (bit_at (line_bits state) 0 ≡ (if state.left then 0 else 1))
        × (bit_at (line_bits state) 1 ≡ (if state.right then 0 else 1))
  unfolding line_bits bit_at
  bits_drive state = go state.left state.right
    where
      go :
          (a b : Bool)
          → (bit_at ((if not a then 1 else 0) + (if not b then 1 else 0) * 2) 0
              ≡ (if a then 0 else 1))
            × (bit_at ((if not a then 1 else 0) + (if not b then 1 else 0) * 2) 1
                ≡ (if b then 0 else 1))
      go true true = (refl, refl)
      go true false = (refl, refl)
      go false true = (refl, refl)
      go false false = (refl, refl)

  set_outputs-SetsLines :
      (old : GpioButtonOutputs) (state : ButtonState) (w : f.system.World)
      → Drives old.lines old.state w
      → SetsLines (set_outputs f.chip old state w)
  unfolding set_outputs ioctl_read_write bit_at
  set_outputs-SetsLines old state w h =
      let values : LineValues = record { bits = line_bits state; mask = 0x3 } in
      let run = f.chip.set_values old.lines 0xc010b40f values w in
      let (left_bit, right_bit) = bits_drive state in
      elim (Bool-cases (equal_states state old.state)) [
        | inl same ↦ rw same h
        | inr differs ↦ rw differs (
            values_set run (record old { state = state })
              (λ e. rw (l.set_sets old.lines values w e) (h.0, left_bit, right_bit)))
      ]

  close_updated :
      (g : Error → Error) (run : Outcome GpioButtonOutputs × f.system.World) (close : Bool)
      (r : DisplayRuntime)
      → SetsLines run
      → StaysDriven (
          map_error g run >? λ outputs w.
          close_if f close (record r { button_outputs = some outputs }) w)
  close_updated g (ok outputs, w) close r h =
      close_if-driven close (record r { button_outputs = some outputs }) w h
  close_updated g (err e, w) close r h = tt
  close_updated g (panic, w) close r h = tt
  close_updated g (out_of_fuel, w) close r h = tt

  update_outputs-driven :
      (o : Option GpioButtonOutputs) (input : SdlInput) (r : DisplayRuntime) (w : f.system.World)
      → r.button_outputs ≡ o
      → IsDriven o w
      → StaysDriven (update_outputs f o input r w)
  update_outputs-driven none input r w e h = close_if-driven input.close r w (rw e tt)
  update_outputs-driven (some old) input r w e h =
      close_updated (cannot_update f) (set_outputs f.chip old input.buttons w) input.close r
        (set_outputs-SetsLines old input.buttons w h)

  poll_input-driven :
      (r : DisplayRuntime) (w : f.system.World)
      → IsDriven r.button_outputs w
      → StaysDriven (poll_input f r w)
  unfolding poll_input
  poll_input-driven r w h =
      update_outputs-driven r.button_outputs (f.poll_input w).0 r (f.poll_input w).1 refl
        (kept r.button_outputs w (f.poll_input w).1 (l.poll_levels w) h)

  check_deadline-driven :
      (d : Option ℕ) (r : DisplayRuntime) (w : f.system.World)
      → IsDriven r.button_outputs w
      → StaysDriven (check_deadline f d r w)
  unfolding render_late timed_out
  check_deadline-driven none r w h = poll_input-driven r w h
  check_deadline-driven (some deadline) r w h =
      let w1 = (f.system.now w).1 in
      let h1 = kept r.button_outputs w w1 (l.now_levels w) h in
      let w2 = (f.render r.parser.framebuffer w1).1 in
      elim (Bool-cases (leb deadline (f.system.now w).0)) [
        | inl due ↦ rw due (
            >?-driven (f.render r.parser.framebuffer w1) (λ _. poll_input f (timed_out r))
              (λ _ _.
                poll_input-driven (timed_out r) w2
                  (kept r.button_outputs w1 w2 (l.render_levels r.parser.framebuffer w1) h1)))
        | inr early ↦ rw early (poll_input-driven r w1 h1)
      ]

  poll_idle-driven :
      (r : DisplayRuntime) (w : f.system.World)
      → IsDriven r.button_outputs w
      → StaysDriven (poll_idle f r w)
  unfolding poll_idle
  poll_idle-driven r w h = check_deadline-driven r.partial_frame_deadline r w h

  rest_of_push-driven :
      (changed : Bool) (r : DisplayRuntime) (w : f.system.World)
      → IsDriven r.button_outputs w
      → StaysDriven (rest_of_push f changed r w)
  unfolding rest_of_push
  rest_of_push-driven true r w h =
      poll_idle-driven
        (record r { partial_frame_deadline = arm (f.system.now w).0 r.partial_frame_deadline })
        (f.system.now w).1 (kept r.button_outputs w (f.system.now w).1 (l.now_levels w) h)
  rest_of_push-driven false r w h = poll_idle-driven r w h

  push_rounds-driven :
      (fuel : ℕ) (input : Bytes) (r : DisplayRuntime) (w : f.system.World)
      → IsDriven r.button_outputs w
      → StaysDriven (push_rounds f fuel input r w)
  unfolding push_rounds presented count_update
  push_rounds-driven zero input r w h = tt
  push_rounds-driven (suc fuel) input r w h =
      >?-driven (push r.parser input, w) _
        (λ o e. elim (Bool-cases (presents o.update)) [
          | inl frame ↦ rw frame (
              >?-driven (f.render o.parser.framebuffer w)
                (λ _. push_rounds f fuel [] (presented (count_update r o)))
                (λ _ q.
                  push_rounds-driven fuel [] (presented (count_update r o))
                    (f.render o.parser.framebuffer w).1
                    (kept r.button_outputs w (f.render o.parser.framebuffer w).1
                      (l.render_levels o.parser.framebuffer w) h)))
          | inr quiet ↦
              rw quiet (rest_of_push-driven (ltb 0 o.update.display_updates) (count_update r o) w h)
        ])

  -- If the lines have the levels of the buttons that the runtime keeps, a call of `push` that returns
  -- leaves them so, whatever the mouse did: a held button is a line at 0.
  pub push_input-driven :
      (r : DisplayRuntime) (input : Bytes) (w : f.system.World)
      → IsDriven r.button_outputs w
      → StaysDriven (push_input f r input w)
  unfolding push_input
  push_input-driven r input w h = push_rounds-driven (rounds_for r.parser input) input r w h
