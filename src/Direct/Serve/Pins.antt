-- ===== src/Direct/Serve/Pins.antt =====
-- src/bin/target.rs: the loop of `main` does not touch the pins.
use raspberry_pi_i2c_target.Prelude.{
  ℕ, zero, suc, ◌≡◌, refl, ap, ◌∙◌, ◌==◌, ltb, length, Bool-cases, inl, inr, Bytes, >?-keeps,
}
use raspberry_pi_i2c_target.Direct.Machine.{Machine, Peripheral, Registers}
use raspberry_pi_i2c_target.Direct.Target.{
  HardwareTarget, drain_received, receiving, queue_response,
}
use raspberry_pi_i2c_target.Direct.Target.Pins.{
  pins_of, sleep-pins, queue_response-pins, drain_received-pins, receiving-pins,
}
use raspberry_pi_i2c_target.Direct.Serve.{response, answer, handle_received, serve_loop}

module _ (m : Machine) (r : Registers m) (t : HardwareTarget) where
  answer-pins :
      (fuel : ℕ) (received : Bytes) (w : m.World)
      → pins_of m r (answer m t fuel received w).1 ≡ pins_of m r w
  unfolding answer
  answer-pins fuel received w = elim (Bool-cases (ltb 15 (length received))) [
    | inl long ↦ rw long refl
    | inr short ↦ rw short (
        >?-keeps (pins_of m r) (pins_of m r w) (queue_response m fuel t (response received) w) _
          (queue_response-pins m r fuel t (response received) w)
          (λ _ v e. sleep-pins m r 1000 v ∙ e))
  ]

  handle_received-pins :
      (fuel : ℕ) (received : Bytes) (w : m.World)
      → pins_of m r (handle_received m t fuel received w).1 ≡ pins_of m r w
  unfolding handle_received
  handle_received-pins fuel received w =
      let (busy, w1) = receiving m w in
      let polled = receiving-pins m r w in
      elim (Bool-cases (length received == 0)) [
        | inl none_yet ↦ rw none_yet (sleep-pins m r 1000 w)
        | inr some_bytes ↦ elim (Bool-cases busy) [
          | inl on ↦ rw (some_bytes, on) (sleep-pins m r 1000 w1 ∙ polled)
          | inr off ↦ rw (some_bytes, off) (answer-pins fuel received w1 ∙ polled)
        ]
      ]

  pub serve_loop-pins :
      (rounds fuel : ℕ) (buffer : Bytes) (w : m.World)
      → pins_of m r (serve_loop m t rounds fuel buffer w).1 ≡ pins_of m r w
  unfolding serve_loop
  serve_loop-pins zero fuel buffer w = refl
  serve_loop-pins (suc rounds) fuel buffer w =
      let w1 = (m.is_running w).1 in
      let asked = ap (λ (p : Peripheral). p.pins) (r.running_keeps w) in
      let pins = pins_of m r w in
      elim (Bool-cases (m.is_running w).0) [
        | inr stopped ↦ rw stopped asked
        | inl running ↦ rw running (
            >?-keeps (pins_of m r) pins _ (serve_loop m t rounds fuel)
              (>?-keeps (pins_of m r) pins (drain_received m fuel buffer w1)
                (handle_received m t fuel) (drain_received-pins m r fuel buffer w1 ∙ asked)
                (λ received v e. handle_received-pins fuel received v ∙ e))
              (λ received v e. serve_loop-pins rounds fuel received v ∙ e))
      ]
