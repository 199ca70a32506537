-- ===== src/Protocol/Push/Total.antt =====
-- src/display_protocol.rs: `push` returns on every input, and keeps the parser well formed.
use raspberry_pi_i2c_target.Prelude.{
  ℕ, zero, suc, ◌+◌, ◌≤◌, ◌<◌, false, ◌≡◌, refl, ◌∙◌, arith, length, ◌++◌, Bytes, Bool-cases, inl,
  inr, Outcome, ok,
}
use raspberry_pi_i2c_target.Protocol.State.{
  DisplayController, ParseUpdate, no_update, ParseState, DisplayParser, Step,
}
use raspberry_pi_i2c_target.Protocol.Push.{
  step_in, step, presents, Pushed, push_loop, fuel_for, receive, push,
}
use raspberry_pi_i2c_target.Protocol.Scan.{scan, waiting}
use raspberry_pi_i2c_target.Protocol.Scan.Advance.{scan-Advances}
use raspberry_pi_i2c_target.Protocol.Data.Advance.{
  Runs, read_ssd1306_data-Runs, read_sh1106_page_data-Runs,
}
use raspberry_pi_i2c_target.Protocol.Invariant.{IsWellFormed, Fits, weight, Advances}

module _ (p : DisplayParser) (u : ParseUpdate) (w : IsWellFormed p) where
  step_in-Runs :
      (c : DisplayController) (s : ParseState)
      → p.controller ≡ c
      → p.state ≡ s
      → Fits c s
      → Runs p u (step_in s p u)
  unfolding step_in
  step_in-Runs c ParseState.scan ec es f = record {
    out = scan p u;
    returns = refl;
    advances = scan-Advances p u w es;
  }
  step_in-Runs DisplayController.ssd1306 (ParseState.ssd1306_data x width page pages) ec es f =
      read_ssd1306_data-Runs p u w x width page pages ec es
  step_in-Runs DisplayController.sh1106 (ParseState.ssd1306_data x width page pages) ec es f =
      absurd f
  step_in-Runs DisplayController.ssd1306 (ParseState.sh1106_page_data page x width) ec es f =
      absurd f
  step_in-Runs DisplayController.sh1106 (ParseState.sh1106_page_data page x width) ec es f =
      read_sh1106_page_data-Runs p u w page x width ec es

  pub step-Runs : Runs p u (step p u)
  unfolding step
  step-Runs = step_in-Runs p.controller p.state refl refl w.fits

-- A call of the loop that returns: it keeps the invariant and the controller, counts no byte twice
-- and, unless it stopped at a frame boundary, leaves a parser that waits for more bytes.
pub record Completes (p : DisplayParser) (u : ParseUpdate) (r : Outcome Pushed) : Type 0 where
  pub out : Pushed
  pub returns : r ≡ ok out
  pub well_formed : IsWellFormed out.parser
  pub same_controller : out.parser.controller ≡ p.controller
  pub accounted :
      out.update.discarded_bytes + length out.parser.pending ≤ u.discarded_bytes + length p.pending
  pub waits :
      presents out.update ≡ false → step out.parser out.update ≡ ok (waiting out.parser out.update)

module _ (p : DisplayParser) (u : ParseUpdate) (s : Step) (e : step p u ≡ ok s)
    (a : Advances p u s) where
  stop-Completes :
      (presents s.update ≡ false → s.progressed ≡ false)
      → Completes p u (ok (record { parser = s.parser; update = s.update }))
  stop-Completes h = record {
    out = record { parser = s.parser; update = s.update };
    returns = refl;
    well_formed = a.well_formed;
    same_controller = a.same_controller;
    accounted = a.accounted;
    waits = λ q. ground (arith, h q, a.idles (h q) q);
  }

pub push_loop-Completes :
    (fuel : ℕ) (p : DisplayParser) (u : ParseUpdate)
    → IsWellFormed p
    → weight p < fuel
    → Completes p u (push_loop fuel p u)
unfolding push_loop
push_loop-Completes zero p u w h = absurd (omega arith)
push_loop-Completes (suc fuel) p u w h =
    let r = step-Runs p u w in
    let s = r.out in
    rw r.returns (elim (Bool-cases (presents s.update)) [
      | inl stop ↦ rw stop (stop-Completes p u s r.returns r.advances (λ q. cc))
      | inr more ↦ rw more (elim (Bool-cases s.progressed) [
        | inr stuck ↦ rw stuck (stop-Completes p u s r.returns r.advances (λ q. stuck))
        | inl again ↦
            let rest =
              push_loop-Completes fuel s.parser s.update r.advances.well_formed
                (omega (arith, r.advances.falls again)) in
            rw again (record {
              out = rest.out;
              returns = rest.returns;
              well_formed = rest.well_formed;
              same_controller = rest.same_controller ∙ r.advances.same_controller;
              accounted = omega (arith, rest.accounted, r.advances.accounted);
              waits = rest.waits;
            })
      ])
    ])

pub weight-lt-fuel_for : (p : DisplayParser) → weight p < fuel_for p.pending
weight-lt-fuel_for p = ground arith

-- From a well-formed parser `push` returns on every input: it never panics and its fuel is enough. The
-- parser stays well formed and keeps its controller, the bytes that are counted as discarded and the
-- bytes that are left are no more than there were, and unless the call ends at a frame boundary,
-- another round would change nothing.
pub push-Completes :
    (p : DisplayParser) (input : Bytes)
    → IsWellFormed p
    → Completes (receive p input) no_update (push p input)
unfolding push
push-Completes p input w =
    push_loop-Completes (fuel_for (p.pending ++ input)) (receive p input) no_update
      (record { size = w.size; fits = w.fits; pages_byte = w.pages_byte })
      (weight-lt-fuel_for (receive p input))
