-- ===== src/VirtualDisplay/Runtime/Fresh.antt =====
-- src/bin/virtual-display.rs: what the window shows, between the calls of `DisplayRuntime`.
use raspberry_pi_i2c_target.Prelude.{
  ℕ, zero, suc, ◌+◌, ◌≤◌, ◌<◌, Bool, true, false, ◌≡◌, refl, arith, ◌∙◌, Option, none, some, [],
  leb, ltb, Outcome, ok, err, panic, out_of_fuel, Bytes, Bool-cases, inl, inr, ap, sym, Error,
  map_error, ◌>?◌,
}
use raspberry_pi_i2c_target.Buttons.{ButtonState, SdlInput, line_bits}
use raspberry_pi_i2c_target.Buttons.Outputs.{
  LineValues, GpioButtonOutputs, gpio_v2_line_set_values_ioctl, set_outputs,
}
use raspberry_pi_i2c_target.VirtualDisplay.Platform.{Platform, Screen}
use raspberry_pi_i2c_target.Protocol.Push.{presents, Pushed, push}
use raspberry_pi_i2c_target.Protocol.Push.Changes.{push_unchanged}
use raspberry_pi_i2c_target.VirtualDisplay.Runtime.{
  cannot_update, rounds_for, DisplayRuntime, count_update, presented, timed_out, arm, close_if,
  update_outputs, poll_input, render_late, check_deadline, poll_idle, rest_of_push, push_rounds,
  push_input,
}

module _ (f : Platform) (s : Screen f) where
  -- With no deadline the window shows the framebuffer; a deadline is at most 75 ms ahead.
  abbrev pub ShowsOrWaits : Option ℕ → Bytes → f.system.World → Type 0
  ShowsOrWaits none framebuffer w = s.shown w ≡ framebuffer
  ShowsOrWaits (some deadline) framebuffer w = deadline ≤ s.time w + 75

  abbrev pub IsFresh : DisplayRuntime → f.system.World → Type 0
  IsFresh r w = ShowsOrWaits r.partial_frame_deadline r.parser.framebuffer w

  -- The same at the end of a call that began at `since`: a deadline that is left had not come then.
  abbrev pub ShowsOrAwaits : (since : ℕ) → Option ℕ → Bytes → f.system.World → Type 0
  ShowsOrAwaits since none framebuffer w = s.shown w ≡ framebuffer
  ShowsOrAwaits since (some deadline) framebuffer w =
      (since < deadline) × (deadline ≤ s.time w + 75)

  abbrev pub IsPrompt : (since : ℕ) → DisplayRuntime → f.system.World → Type 0
  IsPrompt since r w = ShowsOrAwaits since r.partial_frame_deadline r.parser.framebuffer w

  -- Such is a runtime that a call returns.
  abbrev pub StaysPrompt : (since : ℕ) → Outcome DisplayRuntime × f.system.World → Type 0
  StaysPrompt since (ok r, w) = IsPrompt since r w
  StaysPrompt since (err e, w) = Unit
  StaysPrompt since (panic, w) = Unit
  StaysPrompt since (out_of_fuel, w) = Unit

  pub IsPrompt-IsFresh :
      (since : ℕ) (d : Option ℕ) (b : Bytes) (w : f.system.World)
      → ShowsOrAwaits since d b w
      → ShowsOrWaits d b w
  IsPrompt-IsFresh since none b w h = h
  IsPrompt-IsFresh since (some deadline) b w h = h.1

  pub earlier :
      (since before : ℕ) (d : Option ℕ) (b : Bytes) (w : f.system.World)
      → before ≤ since
      → ShowsOrAwaits since d b w
      → ShowsOrAwaits before d b w
  earlier since before none b w t h = h
  earlier since before (some deadline) b w t h = (omega (arith, t, h.0), h.1)

  StaysPrompt-earlier :
      (since before : ℕ) (m : Outcome DisplayRuntime × f.system.World)
      → before ≤ since
      → StaysPrompt since m
      → StaysPrompt before m
  StaysPrompt-earlier since before (ok r, w) t h =
      earlier since before r.partial_frame_deadline r.parser.framebuffer w t h
  StaysPrompt-earlier since before (err e, w) t h = tt
  StaysPrompt-earlier since before (panic, w) t h = tt
  StaysPrompt-earlier since before (out_of_fuel, w) t h = tt

  pub later :
      (since : ℕ) (d : Option ℕ) (b : Bytes) (w w' : f.system.World)
      → s.shown w' ≡ s.shown w
      → s.time w ≤ s.time w'
      → ShowsOrAwaits since d b w
      → ShowsOrAwaits since d b w'
  later since none b w w' e t h = e ∙ h
  later since (some deadline) b w w' e t h = (h.0, omega (arith, t, h.1))

  pub still :
      (d : Option ℕ) (b : Bytes) (w w' : f.system.World)
      → s.shown w' ≡ s.shown w
      → s.time w ≤ s.time w'
      → ShowsOrWaits d b w
      → ShowsOrWaits d b w'
  still none b w w' e t h = e ∙ h
  still (some deadline) b w w' e t h = omega (arith, t, h)

  close_if-prompt :
      (since : ℕ)
      → (close : Bool) (r : DisplayRuntime) (w : f.system.World) → IsPrompt since r w
      → StaysPrompt since (close_if f close r w)
  close_if-prompt since true r w h =
      later since r.partial_frame_deadline r.parser.framebuffer w (f.stop w) (s.stop_shown w)
        (s.stop_time w) h
  close_if-prompt since false r w h = h

  >?-prompt :
      (since : ℕ)
      → {A : Type 0} (m : Outcome A × f.system.World)
        (g : A → f.system.World → Outcome DisplayRuntime × f.system.World)
      → ((a : A) → m.0 ≡ ok a → StaysPrompt since (g a m.1))
      → StaysPrompt since (m >? g)
  >?-prompt since (ok a, w) g h = h a refl
  >?-prompt since (err e, w) g h = tt
  >?-prompt since (panic, w) g h = tt
  >?-prompt since (out_of_fuel, w) g h = tt

  map_error-world :
      {A : Type 0} (g : Error → Error) (m : Outcome A × f.system.World) → (map_error g m).1 ≡ m.1
  map_error-world g (ok a, w) = refl
  map_error-world g (err e, w) = refl
  map_error-world g (panic, w) = refl
  map_error-world g (out_of_fuel, w) = refl

  set_outputs-keeps :
      (old : GpioButtonOutputs) (state : ButtonState) (w : f.system.World)
      → (s.shown (set_outputs f.chip old state w).1 ≡ s.shown w)
        × (s.time w ≤ s.time (set_outputs f.chip old state w).1)
  unfolding set_outputs
  set_outputs-keeps old state w =
      let values : LineValues = record { bits = line_bits state; mask = 0x3 } in
      let number = gpio_v2_line_set_values_ioctl in
      ground (arith, s.set_shown old.lines number values w, s.set_time old.lines number values w)

  update_outputs-prompt :
      (since : ℕ)
      → (o : Option GpioButtonOutputs) (input : SdlInput) (r : DisplayRuntime) (w : f.system.World)
      → IsPrompt since r w
      → StaysPrompt since (update_outputs f o input r w)
  update_outputs-prompt since none input r w h = close_if-prompt since input.close r w h
  update_outputs-prompt since (some old) input r w h =
      let m = set_outputs f.chip old input.buttons w in
      let same = map_error-world (cannot_update f) m in
      let (e, t) = set_outputs-keeps old input.buttons w in
      >?-prompt since (map_error (cannot_update f) m)
        (λ outputs. close_if f input.close (record r { button_outputs = some outputs }))
        (λ outputs _.
          close_if-prompt since input.close (record r { button_outputs = some outputs })
            (map_error (cannot_update f) m).1
            (later since r.partial_frame_deadline r.parser.framebuffer w
              (map_error (cannot_update f) m).1 (ap s.shown same ∙ e) (rw same t) h))

  poll_input-prompt :
      (since : ℕ)
      → (r : DisplayRuntime) (w : f.system.World) → IsPrompt since r w
      → StaysPrompt since (poll_input f r w)
  unfolding poll_input
  poll_input-prompt since r w h =
      update_outputs-prompt since r.button_outputs (f.poll_input w).0 r (f.poll_input w).1 (
        later since r.partial_frame_deadline r.parser.framebuffer w (f.poll_input w).1
          (s.poll_shown w) (s.poll_time w) h)

  -- `poll_idle` renders a deadline that has come.
  check_deadline-prompt :
      (d : Option ℕ) (r : DisplayRuntime) (w : f.system.World)
      → r.partial_frame_deadline ≡ d
      → ShowsOrWaits d r.parser.framebuffer w
      → StaysPrompt (s.time w) (check_deadline f d r w)
  unfolding render_late timed_out
  check_deadline-prompt none r w e h = poll_input-prompt (s.time w) r w (rw e h)
  check_deadline-prompt (some deadline) r w e h =
      let w1 = (f.system.now w).1 in
      elim (Bool-cases (leb deadline (f.system.now w).0)) [
        | inl due ↦ rw due (
            >?-prompt (s.time w) (f.render r.parser.framebuffer w1)
              (λ _. poll_input f (timed_out r))
              (λ _ q.
                poll_input-prompt (s.time w) (timed_out r) (f.render r.parser.framebuffer w1).1
                  (s.renders r.parser.framebuffer w1 q)))
        | inr early ↦
            let ahead : s.time w < deadline = ground (arith, early, s.reads w) in
            rw early (poll_input-prompt (s.time w) r w1 (rw e (ahead, omega (arith, s.reads w, h))))
      ]

  -- A call of `poll_idle` that returns leaves a window that shows the framebuffer, or a deadline at
  -- most 75 ms ahead that had not come when the call began, if it finds the first or any deadline at
  -- most 75 ms ahead.
  pub poll_idle-prompt :
      (r : DisplayRuntime) (w : f.system.World)
      → IsFresh r w
      → StaysPrompt (s.time w) (poll_idle f r w)
  unfolding poll_idle
  poll_idle-prompt r w h = check_deadline-prompt r.partial_frame_deadline r w refl h

  arm-fresh :
      (d : Option ℕ) (b b' : Bytes) (w : f.system.World)
      → ShowsOrWaits d b w
      → ShowsOrWaits (arm (f.system.now w).0 d) b' (f.system.now w).1
  unfolding arm
  arm-fresh none b b' w h = omega (arith, s.reads w)
  arm-fresh (some deadline) b b' w h = omega (arith, s.reads w, h)

  change-fresh :
      (d : Option ℕ) (b b' : Bytes) (w : f.system.World)
      → b' ≡ b
      → ShowsOrWaits d b w
      → ShowsOrWaits d b' w
  change-fresh none b b' w e h = h ∙ sym e
  change-fresh (some deadline) b b' w e h = h

  rest_of_push-fresh :
      (r : DisplayRuntime) (o : Pushed) (input : Bytes) (w : f.system.World)
      → push r.parser input ≡ ok o
      → IsFresh r w
      → StaysPrompt
          (s.time w)
          (rest_of_push f (ltb 0 o.update.display_updates) (count_update r o) w)
  unfolding rest_of_push count_update
  rest_of_push-fresh r o input w e h = elim (Bool-cases (ltb 0 o.update.display_updates)) [
    | inl changed ↦ rw changed (
        StaysPrompt-earlier (s.time (f.system.now w).1) (s.time w) _ (s.reads w).1 (
          poll_idle-prompt
            (record (count_update r o) {
              partial_frame_deadline = arm (f.system.now w).0 r.partial_frame_deadline;
            })
            (f.system.now w).1
            (arm-fresh r.partial_frame_deadline r.parser.framebuffer o.parser.framebuffer w h)))
    | inr same ↦ rw same (
        poll_idle-prompt (count_update r o) w (
          change-fresh r.partial_frame_deadline r.parser.framebuffer o.parser.framebuffer w
            (push_unchanged r.parser input o e (ground (arith, same))) h))
  ]

  push_rounds-fresh :
      (fuel : ℕ) (input : Bytes) (r : DisplayRuntime) (w : f.system.World)
      → IsFresh r w
      → StaysPrompt (s.time w) (push_rounds f fuel input r w)
  unfolding push_rounds presented count_update
  push_rounds-fresh zero input r w h = tt
  push_rounds-fresh (suc fuel) input r w h =
      >?-prompt (s.time w) (push r.parser input, w) _
        (λ o e. elim (Bool-cases (presents o.update)) [
          | inl frame ↦ rw frame (
              >?-prompt (s.time w) (f.render o.parser.framebuffer w)
                (λ _. push_rounds f fuel [] (presented (count_update r o)))
                (λ _ q.
                  StaysPrompt-earlier (s.time (f.render o.parser.framebuffer w).1) (s.time w) _
                    (s.render_time o.parser.framebuffer w)
                    (push_rounds-fresh fuel [] (presented (count_update r o))
                      (f.render o.parser.framebuffer w).1 (s.renders o.parser.framebuffer w q))))
          | inr quiet ↦ rw quiet (rest_of_push-fresh r o input w e h)
        ])

  -- A call of `push` that returns leaves a window that shows every byte of the framebuffer, or a
  -- deadline at most 75 ms ahead that had not come when the call began, if it finds the first or any
  -- deadline at most 75 ms ahead.
  pub push_input-fresh :
      (r : DisplayRuntime) (input : Bytes) (w : f.system.World)
      → IsFresh r w
      → StaysPrompt (s.time w) (push_input f r input w)
  unfolding push_input
  push_input-fresh r input w = push_rounds-fresh (rounds_for r.parser input) input r w
