-- ===== src/Protocol/Push/Add.antt =====
-- src/display_protocol.rs: a `ParseUpdate` only accumulates. No round reads it, but for the test of
-- the loop.
use raspberry_pi_i2c_target.Prelude.{
  ℕ, zero, suc, ◌+◌, false, not, ◌||◌, ◌≡◌, refl, ap, bit_and, get_or, if◌then◌else◌, arith,
  Outcome, ok, err, panic, out_of_fuel, ◌>>=◌, map_ok,
}
use raspberry_pi_i2c_target.Protocol.State.{
  DisplayController, ParseUpdate, ParseState, DisplayParser, Step,
}
use raspberry_pi_i2c_target.Protocol.Push.{step_in, step, presents, Pushed, push_loop}
use raspberry_pi_i2c_target.Protocol.Scan.{
  resynchronize, ssd1306_tail, scan_address, scan_ssd1306, Range, incomplete, invalid, columns,
  sh1106_tail, begin_page, page_range, page_command, scan_page, scan_sh1106, scan_as, scan,
}
use raspberry_pi_i2c_target.Protocol.Data.{
  read_ssd1306_data, finish_page, finish_rectangle, read_sh1106_page_data,
}

-- The sum that a caller of `push` makes of two updates.
abbrev pub add : ParseUpdate → ParseUpdate → ParseUpdate
add u v = record {
  completed_frames = u.completed_frames + v.completed_frames;
  partial_frame_boundary = u.partial_frame_boundary || v.partial_frame_boundary;
  discarded_bytes = u.discarded_bytes + v.discarded_bytes;
  display_updates = u.display_updates + v.display_updates;
}

abbrev pub add_step : ParseUpdate → Step → Step
add_step u s = record s { update = add u s.update }

abbrev pub add_pushed : ParseUpdate → Pushed → Pushed
add_pushed u o = record o { update = add u o.update }

module _ (u v : ParseUpdate) (p : DisplayParser) where
  resynchronize-add : resynchronize p (add u v) ≡ add_step u (resynchronize p v)
  unfolding resynchronize
  resynchronize-add = ground arith

  ssd1306_tail-add : ssd1306_tail p (add u v) ≡ add_step u (ssd1306_tail p v)
  unfolding ssd1306_tail
  ssd1306_tail-add = ground (arith, resynchronize-add)

  scan_ssd1306-add : scan_ssd1306 p (add u v) ≡ add_step u (scan_ssd1306 p v)
  unfolding scan_ssd1306 scan_address
  scan_ssd1306-add = ground (arith, ssd1306_tail-add)

  sh1106_tail-add : sh1106_tail p (add u v) ≡ add_step u (sh1106_tail p v)
  unfolding sh1106_tail
  sh1106_tail-add = ground (arith, resynchronize-add)

  begin_page-add :
      (r : Range) (page : ℕ) → begin_page r page p (add u v) ≡ add_step u (begin_page r page p v)
  unfolding begin_page
  begin_page-add incomplete page = refl
  begin_page-add invalid page = sh1106_tail-add
  begin_page-add (columns n x width) page = refl

  page_command-add : (page : ℕ) → page_command page p (add u v) ≡ add_step u (page_command page p v)
  unfolding page_command
  page_command-add page = ground (arith, begin_page-add (page_range p.pending) page)

  scan_sh1106-add : scan_sh1106 p (add u v) ≡ add_step u (scan_sh1106 p v)
  unfolding scan_sh1106 scan_page
  scan_sh1106-add =
      ground (arith, sh1106_tail-add, page_command-add (bit_and (get_or p.pending 1 0) 7))

  scan_as-add : (c : DisplayController) → scan_as c p (add u v) ≡ add_step u (scan_as c p v)
  unfolding scan_as
  scan_as-add DisplayController.ssd1306 = scan_ssd1306-add
  scan_as-add DisplayController.sh1106 = scan_sh1106-add

  scan-add : scan p (add u v) ≡ add_step u (scan p v)
  unfolding scan
  scan-add = scan_as-add p.controller

  read_ssd1306_data-add :
      (x width page pages : ℕ)
      → read_ssd1306_data x width page pages p (add u v)
        ≡ map_ok (add_step u) (read_ssd1306_data x width page pages p v)
  unfolding read_ssd1306_data finish_rectangle
  read_ssd1306_data-add x width page pages = ground arith

  read_sh1106_page_data-add :
      (page x width : ℕ)
      → read_sh1106_page_data page x width p (add u v)
        ≡ map_ok (add_step u) (read_sh1106_page_data page x width p v)
  unfolding read_sh1106_page_data finish_page
  read_sh1106_page_data-add page x width = ground arith

  step_in-add : (s : ParseState) → step_in s p (add u v) ≡ map_ok (add_step u) (step_in s p v)
  unfolding step_in
  step_in-add ParseState.scan = ap ok scan-add
  step_in-add (ParseState.ssd1306_data x width page pages) =
      read_ssd1306_data-add x width page pages
  step_in-add (ParseState.sh1106_page_data page x width) = read_sh1106_page_data-add page x width

  pub step-add : step p (add u v) ≡ map_ok (add_step u) (step p v)
  unfolding step
  step-add = step_in-add p.state

-- What the loop does behind the `match`.
abbrev pub round : ℕ → Step → Outcome Pushed
round fuel s =
    let rest = push_loop fuel s.parser s.update in
    if presents s.update
    then ok (record { parser = s.parser; update = s.update })
    else if not s.progressed
    then ok (record { parser = s.parser; update = s.update })
    else rest

module _ (u : ParseUpdate) (quiet : presents u ≡ false) where
  round-add :
      (fuel : ℕ)
      → ((p : DisplayParser) (v : ParseUpdate)
          → push_loop fuel p (add u v) ≡ map_ok (add_pushed u) (push_loop fuel p v))
      → (r : Outcome Step)
      → (map_ok (add_step u) r >>= round fuel) ≡ map_ok (add_pushed u) (r >>= round fuel)
  round-add fuel ih (ok s) = ground (arith, ih s.parser s.update)
  round-add fuel ih (err e) = refl
  round-add fuel ih panic = refl
  round-add fuel ih out_of_fuel = refl

  -- What was counted before the loop is counted on top of what the loop counts.
  pub push_loop-add :
      (fuel : ℕ) (p : DisplayParser) (v : ParseUpdate)
      → push_loop fuel p (add u v) ≡ map_ok (add_pushed u) (push_loop fuel p v)
  unfolding push_loop
  push_loop-add zero p v = refl
  push_loop-add (suc fuel) p v =
      rw (step-add u v p) (round-add fuel (push_loop-add fuel) (step p v))
