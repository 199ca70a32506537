-- ===== src/VirtualDisplay/Runtime/Ends.antt =====
-- src/bin/virtual-display.rs: `DisplayRuntime::push` ends.
use raspberry_pi_i2c_target.Prelude.{
  ℕ, zero, suc, ◌<◌, Bool, true, false, ◌≡◌, refl, arith, Option, none, some, [], leb, ltb, Outcome,
  ok, err, panic, out_of_fuel, Bytes, Bool-cases, inl, inr, map_error, ◌>?◌, append-nil,
}
use raspberry_pi_i2c_target.Buttons.{ButtonState, SdlInput, line_bits}
use raspberry_pi_i2c_target.Buttons.Outputs.{
  GpioButtonOutputs, gpio_v2_line_set_values_ioctl, set_outputs,
}
use raspberry_pi_i2c_target.VirtualDisplay.Platform.{Platform, Screen, responds}
use raspberry_pi_i2c_target.Protocol.Invariant.{IsWellFormed}
use raspberry_pi_i2c_target.Protocol.Push.{presents, Pushed, receive}
use raspberry_pi_i2c_target.Protocol.Push.Total.{push-Completes}
use raspberry_pi_i2c_target.Protocol.Push.Descends.{measure, push-descends, measure-le}
use raspberry_pi_i2c_target.VirtualDisplay.Runtime.{
  rounds_for, cannot_update, DisplayRuntime, count_update, presented, timed_out, arm, set_outputs,
  close_if, update_outputs, poll_input, render_late, check_deadline, poll_idle, rest_of_push,
  push_rounds, push_input,
}

module _ (f : Platform) (s : Screen f) where
  -- A value with a well formed parser, or an error: no panic, and no end of the fuel.
  abbrev pub Ends : Outcome DisplayRuntime × f.system.World → Type 0
  Ends (ok r, w) = IsWellFormed r.parser
  Ends (err e, w) = Unit
  Ends (panic, w) = ⊥
  Ends (out_of_fuel, w) = ⊥

  >?-Ends :
      {A : Type 0} (m : Outcome A × f.system.World)
      (g : A → f.system.World → Outcome DisplayRuntime × f.system.World)
      → responds m.0 ≡ true
      → ((a : A) → Ends (g a m.1))
      → Ends (m >? g)
  >?-Ends (ok a, w) g h k = k a
  >?-Ends (err e, w) g h k = tt
  >?-Ends (panic, w) g h k = cc
  >?-Ends (out_of_fuel, w) g h k = cc

  close_if-Ends :
      (close : Bool) (r : DisplayRuntime) (w : f.system.World)
      → IsWellFormed r.parser
      → Ends (close_if f close r w)
  close_if-Ends true r w h = h
  close_if-Ends false r w h = h

  set_outputs-responds :
      (old : GpioButtonOutputs) (state : ButtonState) (w : f.system.World)
      → responds (map_error (cannot_update f) (set_outputs f.chip old state w)).0 ≡ true
  unfolding set_outputs
  set_outputs-responds old state w = ground (
    arith,
    s.set_responds old.lines gpio_v2_line_set_values_ioctl
        (record { bits = line_bits state; mask = 0x3 }) w,
  )

  update_outputs-Ends :
      (o : Option GpioButtonOutputs) (input : SdlInput) (r : DisplayRuntime) (w : f.system.World)
      → IsWellFormed r.parser
      → Ends (update_outputs f o input r w)
  update_outputs-Ends none input r w h = close_if-Ends input.close r w h
  update_outputs-Ends (some old) input r w h =
      let m = map_error (cannot_update f) (set_outputs f.chip old input.buttons w) in
      >?-Ends m (λ outputs. close_if f input.close (record r { button_outputs = some outputs }))
        (set_outputs-responds old input.buttons w)
        (λ outputs. close_if-Ends input.close (record r { button_outputs = some outputs }) m.1 h)

  poll_input-Ends :
      (r : DisplayRuntime) (w : f.system.World) → IsWellFormed r.parser → Ends (poll_input f r w)
  unfolding poll_input
  poll_input-Ends r w h =
      update_outputs-Ends r.button_outputs (f.poll_input w).0 r (f.poll_input w).1 h

  check_deadline-Ends :
      (d : Option ℕ) (r : DisplayRuntime) (w : f.system.World)
      → IsWellFormed r.parser
      → Ends (check_deadline f d r w)
  unfolding render_late timed_out
  check_deadline-Ends none r w h = poll_input-Ends r w h
  check_deadline-Ends (some deadline) r w h =
      let w1 = (f.system.now w).1 in
      elim (Bool-cases (leb deadline (f.system.now w).0)) [
        | inl due ↦ rw due (
            >?-Ends (f.render r.parser.framebuffer w1) (λ _. poll_input f (timed_out r))
              (s.render_responds r.parser.framebuffer w1)
              (λ _. poll_input-Ends (timed_out r) (f.render r.parser.framebuffer w1).1 h))
        | inr early ↦ rw early (poll_input-Ends r w1 h)
      ]

  rest_of_push-Ends :
      (changed : Bool) (r : DisplayRuntime) (w : f.system.World)
      → IsWellFormed r.parser
      → Ends (rest_of_push f changed r w)
  unfolding rest_of_push poll_idle
  rest_of_push-Ends true r w h =
      let d = arm (f.system.now w).0 r.partial_frame_deadline in
      check_deadline-Ends d (record r { partial_frame_deadline = d }) (f.system.now w).1 h
  rest_of_push-Ends false r w h = check_deadline-Ends r.partial_frame_deadline r w h

  push_rounds-Ends :
      (fuel : ℕ) (input : Bytes) (r : DisplayRuntime) (w : f.system.World)
      → IsWellFormed r.parser
      → measure (receive r.parser input) < fuel
      → Ends (push_rounds f fuel input r w)
  unfolding push_rounds presented count_update
  push_rounds-Ends zero input r w h m = absurd (omega (arith, m))
  push_rounds-Ends (suc fuel) input r w h m =
      let c = push-Completes r.parser input h in
      let o = c.out in
      rw c.returns (elim (Bool-cases (presents o.update)) [
        | inl frame ↦ rw frame (
            >?-Ends (f.render o.parser.framebuffer w)
              (λ _. push_rounds f fuel [] (presented (count_update r o)))
              (s.render_responds o.parser.framebuffer w)
              (λ _.
                push_rounds-Ends fuel [] (presented (count_update r o))
                  (f.render o.parser.framebuffer w).1 c.well_formed
                  (omega (arith, m, again o, push-descends r.parser input o h c.returns frame))))
        | inr quiet ↦
            rw quiet (
              rest_of_push-Ends (ltb 0 o.update.display_updates) (count_update r o) w c.well_formed)
      ])
    where
      again : (o : Pushed) → measure (receive o.parser []) ≡ measure o.parser
      again o = rw (append-nil o.parser.pending) refl

  -- Of a runtime whose parser is well formed, and with calls that give a value or an error, `push`
  -- gives a value, with a well formed parser, or an error: its loop ends within the fuel, and
  -- nothing in it panics.
  pub push_input-Ends :
      (r : DisplayRuntime) (input : Bytes) (w : f.system.World)
      → IsWellFormed r.parser
      → Ends (push_input f r input w)
  unfolding push_input
  push_input-Ends r input w h =
      push_rounds-Ends (rounds_for r.parser input) input r w h
        (omega (arith, measure-le (receive r.parser input)))
