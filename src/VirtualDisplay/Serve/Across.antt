-- ===== src/VirtualDisplay/Serve/Across.antt =====
-- src/bin/virtual-display.rs: what each call of `serve` respects, the whole of it respects.
use raspberry_pi_i2c_target.Prelude.{
  ℕ, zero, suc, Bool, true, false, Option, none, some, Outcome, ok, err, panic, out_of_fuel,
  ErrorKind, Error, Bytes, [], Bool-cases, inl, inr, leb, ◌==◌, >?-reaches, map_error,
  map_error-world,
}
use raspberry_pi_i2c_target.Text.{String}
use raspberry_pi_i2c_target.Buttons.{ButtonState, SdlInput, equal_states}
use raspberry_pi_i2c_target.Buttons.Outputs.{
  GpioButtonOutputs, LineValues, LineRequest, request_lines, set_outputs,
}
use raspberry_pi_i2c_target.Protocol.State.{DisplayController}
use raspberry_pi_i2c_target.Protocol.Push.{presents, push}
use raspberry_pi_i2c_target.VirtualDisplay.Platform.{Platform}
use raspberry_pi_i2c_target.VirtualDisplay.Runtime.{
  cannot_update, cannot_request, DisplayRuntime, count_update, presented, timed_out, close_if,
  update_outputs, poll_input, render_late, check_deadline, poll_idle, rest_of_push, push_rounds,
  rounds_for, push_input, request_outputs, start,
}
use raspberry_pi_i2c_target.VirtualDisplay.Serve.{
  Serving, report, count_record, read_failed, handle_read, serve_round, serve_loop, serve,
}

-- A preorder that holds between the worlds before and after each call that `serve` makes.
pub record Across (f : Platform) : Type 1 where
  pub Reaches : f.system.World → f.system.World → Type 0
  pub stays : (w : f.system.World) → Reaches w w
  pub then : (u v w : f.system.World) → Reaches u v → Reaches v w → Reaches u w
  pub by_now : (w : f.system.World) → Reaches w (f.system.now w).1
  pub by_sleep : (n : ℕ) (w : f.system.World) → Reaches w (f.system.sleep n w)
  pub by_open : (w : f.system.World) → Reaches w (f.open_target w).1
  pub by_read : (w : f.system.World) → Reaches w (f.read w).1
  pub by_window :
      (title : String) (vsync : Bool) (w : f.system.World)
      → Reaches w (f.open_window title vsync w).1
  pub by_render : (b : Bytes) (w : f.system.World) → Reaches w (f.render b w).1
  pub by_poll : (w : f.system.World) → Reaches w (f.poll_input w).1
  pub by_chip : (path : String) (w : f.system.World) → Reaches w (f.chip.open_chip path w).1
  pub by_request :
      (number : ℕ) (request : LineRequest) (w : f.system.World)
      → Reaches w (f.chip.get_lines number request w).1
  pub by_values :
      (descriptor number : ℕ) (v : LineValues) (w : f.system.World)
      → Reaches w (f.chip.set_values descriptor number v w).1
  pub by_running : (w : f.system.World) → Reaches w (f.is_running w).1
  pub by_stop : (w : f.system.World) → Reaches w (f.stop w)

module _ (f : Platform) (a : Across f) where
  set_outputs-reaches :
      (outputs : GpioButtonOutputs) (state : ButtonState) (w : f.system.World)
      → a.Reaches w (set_outputs f.chip outputs state w).1
  unfolding set_outputs
  set_outputs-reaches outputs state w = elim (Bool-cases (equal_states state outputs.state)) [
    | inl same ↦ rw same (a.stays w)
    | inr changed ↦ rw changed (
        >?-reaches a.Reaches a.then w (f.chip.set_values outputs.lines _ _ w) _
          (a.by_values outputs.lines _ _ w) (λ _ w. a.stays w))
  ]

  close_if-reaches :
      (close : Bool) (r : DisplayRuntime) (w : f.system.World)
      → a.Reaches w (close_if f close r w).1
  close_if-reaches true r w = a.by_stop w
  close_if-reaches false r w = a.stays w

  update_outputs-reaches :
      (o : Option GpioButtonOutputs) (input : SdlInput) (r : DisplayRuntime) (w : f.system.World)
      → a.Reaches w (update_outputs f o input r w).1
  update_outputs-reaches none input r w = close_if-reaches input.close r w
  update_outputs-reaches (some old) input r w =
      let run = set_outputs f.chip old input.buttons w in
      >?-reaches a.Reaches a.then w (map_error (cannot_update f) run) _
        (rw (map_error-world (cannot_update f) run) (set_outputs-reaches old input.buttons w))
        (λ outputs w. close_if-reaches input.close _ w)

  poll_input-reaches : (r : DisplayRuntime) (w : f.system.World) → a.Reaches w (poll_input f r w).1
  unfolding poll_input
  poll_input-reaches r w =
      let (input, w1) = f.poll_input w in
      a.then w w1 _ (a.by_poll w) (update_outputs-reaches r.button_outputs input r w1)

  render_late-reaches :
      (r : DisplayRuntime) (w : f.system.World) → a.Reaches w (render_late f r w).1
  unfolding render_late
  render_late-reaches r w =
      >?-reaches a.Reaches a.then w (f.render r.parser.framebuffer w) _ (a.by_render _ w)
        (λ _ w. poll_input-reaches (timed_out r) w)

  check_deadline-reaches :
      (deadline : Option ℕ) (r : DisplayRuntime) (w : f.system.World)
      → a.Reaches w (check_deadline f deadline r w).1
  check_deadline-reaches none r w = poll_input-reaches r w
  check_deadline-reaches (some deadline) r w =
      let (now, w1) = f.system.now w in
      elim (Bool-cases (leb deadline now)) [
        | inl late ↦ rw late (a.then w w1 _ (a.by_now w) (render_late-reaches r w1))
        | inr early ↦ rw early (a.then w w1 _ (a.by_now w) (poll_input-reaches r w1))
      ]

  poll_idle-reaches : (r : DisplayRuntime) (w : f.system.World) → a.Reaches w (poll_idle f r w).1
  unfolding poll_idle
  poll_idle-reaches r w = check_deadline-reaches r.partial_frame_deadline r w

  rest_of_push-reaches :
      (changed : Bool) (r : DisplayRuntime) (w : f.system.World)
      → a.Reaches w (rest_of_push f changed r w).1
  unfolding rest_of_push
  rest_of_push-reaches true r w =
      let (now, w1) = f.system.now w in a.then w w1 _ (a.by_now w) (poll_idle-reaches _ w1)
  rest_of_push-reaches false r w = poll_idle-reaches r w

  push_rounds-reaches :
      (fuel : ℕ) (input : Bytes) (r : DisplayRuntime) (w : f.system.World)
      → a.Reaches w (push_rounds f fuel input r w).1
  unfolding push_rounds
  push_rounds-reaches zero input r w = a.stays w
  push_rounds-reaches (suc fuel) input r w =
      >?-reaches a.Reaches a.then w (push r.parser input, w) _ (a.stays w)
        λ o w. elim (Bool-cases (presents o.update)) [
          | inl whole ↦ rw whole (
              >?-reaches a.Reaches a.then w (f.render o.parser.framebuffer w) _ (a.by_render _ w)
                (λ _ w. push_rounds-reaches fuel [] (presented (count_update r o)) w))
          | inr partial ↦ rw partial (rest_of_push-reaches _ (count_update r o) w)
        ]

  push_input-reaches :
      (r : DisplayRuntime) (input : Bytes) (w : f.system.World)
      → a.Reaches w (push_input f r input w).1
  unfolding push_input
  push_input-reaches r input w = push_rounds-reaches (rounds_for r.parser input) input r w

  request_outputs-reaches :
      (o : Option (ℕ × ℕ)) (w : f.system.World) → a.Reaches w (request_outputs f o w).1
  unfolding request_lines
  request_outputs-reaches none w = a.stays w
  request_outputs-reaches (some (left, right)) w =
      let run = request_lines f.chip "/dev/gpiochip0" left right w in
      >?-reaches a.Reaches a.then w (map_error (cannot_request f left right) run) _
        (rw (map_error-world (cannot_request f left right) run) (
          >?-reaches a.Reaches a.then w (f.chip.open_chip "/dev/gpiochip0" w) _ (a.by_chip _ w)
            (λ _ w.
              >?-reaches a.Reaches a.then w (f.chip.get_lines _ _ w) _ (a.by_request _ _ w)
                (λ _ w. a.stays w))))
        (λ _ w. a.stays w)

  start-reaches :
      (controller : DisplayController) (title : String) (o : Option (ℕ × ℕ)) (vsync : Bool)
      (w : f.system.World)
      → a.Reaches w (start f controller title o vsync w).1
  unfolding start
  start-reaches controller title o vsync w =
      >?-reaches a.Reaches a.then w (f.open_window title vsync w) _ (a.by_window title vsync w)
        (λ _ w.
          >?-reaches a.Reaches a.then w (request_outputs f o w) _ (request_outputs-reaches o w)
            (λ _ w. a.stays w))

  report-reaches : (v : Serving) (w : f.system.World) → a.Reaches w (report f v w).1
  report-reaches v w = elim (Bool-cases (v.received_records == 1)) [
    | inl first ↦ rw first (a.by_now w)
    | inr later ↦ elim (Bool-cases (leb v.next_report (f.system.now w).0)) [
      | inl due ↦ rw (later, due) (a.by_now w)
      | inr early ↦ rw (later, early) (a.by_now w)
    ]
  ]

  read_failed-reaches :
      (kind : ErrorKind) (error : Error) (v : Serving) (w : f.system.World)
      → a.Reaches w (read_failed f kind error v w).1
  unfolding read_failed
  read_failed-reaches ErrorKind.would_block error v w =
      >?-reaches a.Reaches a.then w (poll_idle f v.display w) _ (poll_idle-reaches v.display w)
        (λ _ w. a.by_sleep 2 w)
  read_failed-reaches ErrorKind.interrupted error v w = a.stays w
  read_failed-reaches _ error v w = a.stays w

  handle_read-reaches :
      (r : Outcome Bytes) (v : Serving) (w : f.system.World) → a.Reaches w (handle_read f r v w).1
  unfolding handle_read
  handle_read-reaches (ok input) v w =
      >?-reaches a.Reaches a.then w (push_input f v.display input w) _
        (push_input-reaches v.display input w)
        (λ display w. report-reaches (count_record f (record v { display = display }) input) w)
  handle_read-reaches (err error) v w = read_failed-reaches error.kind error v w
  handle_read-reaches panic v w = a.stays w
  handle_read-reaches out_of_fuel v w = a.stays w

  serve_loop-reaches :
      (rounds : ℕ) (v : Serving) (w : f.system.World) → a.Reaches w (serve_loop f rounds v w).1
  unfolding serve_loop serve_round
  serve_loop-reaches zero v w = a.stays w
  serve_loop-reaches (suc rounds) v w =
      let w1 = (f.is_running w).1 in
      let w2 = (f.read w1).1 in
      elim (Bool-cases (f.is_running w).0) [
        | inr stopped ↦ rw stopped (a.by_running w)
        | inl running ↦ rw running (
            >?-reaches a.Reaches a.then w (handle_read f (f.read w1).0 v w2) _
              (a.then w w1 _ (a.by_running w)
                (a.then w1 w2 _ (a.by_read w1) (handle_read-reaches (f.read w1).0 v w2)))
              (serve_loop-reaches rounds))
      ]

  pub serve-reaches :
      (rounds : ℕ) (controller : DisplayController) (title : String) (o : Option (ℕ × ℕ))
      (vsync : Bool) (w : f.system.World)
      → a.Reaches w (serve f rounds controller title o vsync w).1
  unfolding serve
  serve-reaches rounds controller title o vsync w =
      >?-reaches a.Reaches a.then w (f.open_target w) _ (a.by_open w) λ _ w.
        >?-reaches a.Reaches a.then w (start f controller title o vsync w) _
          (start-reaches controller title o vsync w)
          λ _ v.
            a.then v (f.system.now v).1 _ (a.by_now v)
              (serve_loop-reaches rounds _ (f.system.now v).1)
