-- ===== src/Protocol/Push/Changes.antt =====
-- src/display_protocol.rs: `display_updates` tells whether the framebuffer has changed.
use raspberry_pi_i2c_target.Prelude.{
  ℕ, zero, suc, ◌≤◌, ◌≡◌, ◌∙◌, arith, Bytes, Bool-cases, inl, inr, >>=-eq-ok, ok, bit_and, get_or,
}
use raspberry_pi_i2c_target.Protocol.State.{
  DisplayController, ParseUpdate, no_update, ParseState, DisplayParser, Step,
}
use raspberry_pi_i2c_target.Protocol.Scan.{
  resynchronize, ssd1306_tail, scan_address, scan_ssd1306, Range, incomplete, invalid, columns,
  page_range, sh1106_tail, begin_page, page_command, scan_page, scan_sh1106, scan_as, scan,
}
use raspberry_pi_i2c_target.Protocol.Data.{
  read_ssd1306_data, finish_rectangle, read_sh1106_page_data, finish_page,
}
use raspberry_pi_i2c_target.Protocol.Push.{
  step_in, step, presents, Pushed, push_loop, receive, push, fuel_for,
}
use raspberry_pi_i2c_target.Protocol.Push.Add.{round}

-- Either the framebuffer is the old one and the count too, or the count has grown.
pub record Tells (framebuffer : Bytes) (u : ParseUpdate) (framebuffer' : Bytes) (u' : ParseUpdate)
    : Type 0 where
  pub grows : u.display_updates ≤ u'.display_updates
  pub same : u'.display_updates ≡ u.display_updates → framebuffer' ≡ framebuffer

abbrev StepTells : DisplayParser → ParseUpdate → Step → Type 0
StepTells p u s = Tells p.framebuffer u s.parser.framebuffer s.update

module _ (p : DisplayParser) (u : ParseUpdate) where
  ssd1306_tail-Tells : StepTells p u (ssd1306_tail p u)
  unfolding ssd1306_tail resynchronize
  ssd1306_tail-Tells = ground arith

  sh1106_tail-Tells : StepTells p u (sh1106_tail p u)
  unfolding sh1106_tail resynchronize
  sh1106_tail-Tells = ground arith

  begin_page-Tells : (r : Range) (page : ℕ) → StepTells p u (begin_page r page p u)
  unfolding begin_page
  begin_page-Tells incomplete page = ground arith
  begin_page-Tells invalid page = sh1106_tail-Tells
  begin_page-Tells (columns n x width) page = ground arith

  page_command-Tells : (page : ℕ) → StepTells p u (page_command page p u)
  unfolding page_command
  page_command-Tells page = ground (arith, begin_page-Tells (page_range p.pending) page)

  scan_as-Tells : (c : DisplayController) → StepTells p u (scan_as c p u)
  unfolding scan_as scan_ssd1306 scan_address scan_sh1106 scan_page
  scan_as-Tells DisplayController.ssd1306 = ground (arith, ssd1306_tail-Tells)
  scan_as-Tells DisplayController.sh1106 =
      ground (arith, sh1106_tail-Tells, page_command-Tells (bit_and (get_or p.pending 1 0) 7))

  step_in-Tells : (st : ParseState) (s : Step) → step_in st p u ≡ ok s → StepTells p u s
  unfolding step_in scan read_ssd1306_data finish_rectangle read_sh1106_page_data finish_page
  step_in-Tells ParseState.scan s e = ground (arith, scan_as-Tells p.controller)
  step_in-Tells (ParseState.ssd1306_data x width page pages) s e = ground arith
  step_in-Tells (ParseState.sh1106_page_data page x width) s e = ground arith

  step-Tells : (s : Step) → step p u ≡ ok s → StepTells p u s
  unfolding step
  step-Tells = step_in-Tells p.state

push_loop-Tells :
    (fuel : ℕ) (p : DisplayParser) (u : ParseUpdate) (o : Pushed)
    → push_loop fuel p u ≡ ok o
    → Tells p.framebuffer u o.parser.framebuffer o.update
unfolding push_loop
push_loop-Tells zero p u o e = cc
push_loop-Tells (suc fuel) p u o e =
    let (s, es, er) = >>=-eq-ok (step p u) (round fuel) e in
    let first = step-Tells p u s es in
    elim (Bool-cases (presents s.update)) [
      | inl stop ↦ ground (arith, first, er, stop)
      | inr go ↦ elim (Bool-cases s.progressed) [
        | inr stuck ↦ ground (arith, first, er, go, stuck)
        | inl again ↦
            let rest = push_loop-Tells fuel s.parser s.update o (rw (go, again) at er) in
            record {
              grows = omega (arith, first.grows, rest.grows);
              same = λ q.
                  rest.same (omega (arith, first.grows, rest.grows))
                  ∙ first.same (omega (arith, first.grows, rest.grows));
            }
      ]
    ]

-- A call that reports no display update has left every byte of the framebuffer as it was.
pub push_unchanged :
    (p : DisplayParser) (input : Bytes) (o : Pushed)
    → push p input ≡ ok o
    → o.update.display_updates ≡ 0
    → o.parser.framebuffer ≡ p.framebuffer
unfolding push
push_unchanged p input o e =
    (push_loop-Tells (fuel_for (receive p input).pending) (receive p input) no_update o e).same
