-- ===== src/Protocol/Push/Descends.antt =====
-- src/display_protocol.rs: a call of `push` that presents a frame leaves less to do.
use raspberry_pi_i2c_target.Prelude.{
  ℕ, zero, suc, ◌+◌, ◌*◌, ◌≤◌, ◌<◌, true, false, ◌≡◌, refl, arith, Option, none, some, Bytes,
  Bool-cases, inl, inr, >>=-eq-ok, ok, bit_and, get_or, length, ◌⊎◌,
}
use raspberry_pi_i2c_target.Protocol.State.{
  DisplayController, ParseUpdate, no_update, ParseState, DisplayParser, Step,
}
use raspberry_pi_i2c_target.Protocol.Scan.{
  resynchronize, ssd1306_tail, scan_address, scan_ssd1306, Range, incomplete, invalid, columns,
  page_range, page_falls, ends_frame, sh1106_tail, begin_page, page_command, scan_page, scan_sh1106,
  scan_as, scan,
}
use raspberry_pi_i2c_target.Protocol.Data.{
  read_ssd1306_data, finish_rectangle, read_sh1106_page_data, finish_page,
}
use raspberry_pi_i2c_target.Protocol.Push.{
  step_in, step, presents, Pushed, push_loop, receive, push, fuel_for,
}
use raspberry_pi_i2c_target.Protocol.Push.Add.{round}
use raspberry_pi_i2c_target.Protocol.Push.Total.{step-Runs}
use raspberry_pi_i2c_target.Protocol.Invariant.{IsWellFormed, weight}

abbrev pub last_weight : Option ℕ → ℕ
last_weight none = 0
last_weight (some page) = 1

-- What each call that presents a frame lowers.
abbrev pub measure : DisplayParser → ℕ
measure p = 2 * weight p + last_weight p.sh1106_last_page_command

abbrev StepDescends : DisplayParser → ParseUpdate → Step → Type 0
StepDescends p u s =
    s.progressed ≡ false
    → presents u ≡ false
    → presents s.update ≡ true
    → measure s.parser < measure p

module _ (p : DisplayParser) (u : ParseUpdate) where
  ssd1306_tail-descends : StepDescends p u (ssd1306_tail p u)
  unfolding ssd1306_tail resynchronize
  ssd1306_tail-descends = ground arith

  sh1106_tail-descends : StepDescends p u (sh1106_tail p u)
  unfolding sh1106_tail resynchronize
  sh1106_tail-descends = ground arith

  begin_page-descends : (r : Range) (page : ℕ) → StepDescends p u (begin_page r page p u)
  unfolding begin_page
  begin_page-descends incomplete page = ground arith
  begin_page-descends invalid page = sh1106_tail-descends
  begin_page-descends (columns n x width) page = ground arith

  page_command-descends : (page : ℕ) → StepDescends p u (page_command page p u)
  unfolding page_command ends_frame page_falls
  page_command-descends page = ground (arith, begin_page-descends (page_range p.pending) page)

  scan_as-descends : (c : DisplayController) → StepDescends p u (scan_as c p u)
  unfolding scan_as scan_ssd1306 scan_address scan_sh1106 scan_page
  scan_as-descends DisplayController.ssd1306 = ground (arith, ssd1306_tail-descends)
  scan_as-descends DisplayController.sh1106 =
      ground (arith, sh1106_tail-descends, page_command-descends (bit_and (get_or p.pending 1 0) 7))

  step_in-descends : (st : ParseState) (s : Step) → step_in st p u ≡ ok s → StepDescends p u s
  unfolding step_in scan read_ssd1306_data finish_rectangle read_sh1106_page_data finish_page
  step_in-descends ParseState.scan s e = ground (arith, e, scan_as-descends p.controller)
  step_in-descends (ParseState.ssd1306_data x width page pages) s e = ground (arith, e)
  step_in-descends (ParseState.sh1106_page_data page x width) s e = ground (arith, e)

  step-descends : (s : Step) → step p u ≡ ok s → StepDescends p u s
  unfolding step
  step-descends = step_in-descends p.state

last_weight-le : (o : Option ℕ) → last_weight o ≤ 1
last_weight-le none = omega arith
last_weight-le (some page) = omega arith

-- A round that presents a frame, or one that goes on.
round-descends :
    (p : DisplayParser) (u : ParseUpdate) (s : Step)
    → IsWellFormed p
    → step p u ≡ ok s
    → presents u ≡ false
    → (s.progressed ≡ true) ⊎ (presents s.update ≡ true)
    → (measure s.parser < measure p) × IsWellFormed s.parser
round-descends p u s w e quiet acts =
    let r = step-Runs p u w in
    let same : r.out ≡ s = cc (r.returns, e) in
    let falls : (s.progressed ≡ true → weight s.parser < weight p) = rw (← same) r.advances.falls in
    elim (Bool-cases s.progressed) [
      | inl again ↦ (
        omega (arith, falls again, last_weight-le s.parser.sh1106_last_page_command),
        rw (← same) r.advances.well_formed,
      )
      | inr stuck ↦ (
        step-descends p u s e stuck quiet (ground (arith, acts, stuck)),
        rw (← same) r.advances.well_formed,
      )
    ]

push_loop-descends :
    (fuel : ℕ) (p : DisplayParser) (u : ParseUpdate) (o : Pushed)
    → IsWellFormed p
    → presents u ≡ false
    → push_loop fuel p u ≡ ok o
    → presents o.update ≡ true
    → measure o.parser < measure p
unfolding push_loop
push_loop-descends zero p u o w quiet e frame = cc
push_loop-descends (suc fuel) p u o w quiet e frame =
    let (s, es, er) = >>=-eq-ok (step p u) (round fuel) e in
    elim (Bool-cases (presents s.update)) [
      | inl stop ↦
          let (less, _) = round-descends p u s w es quiet (inr stop) in
          ground (arith, less, er, stop)
      | inr go ↦ elim (Bool-cases s.progressed) [
        | inr stuck ↦ ground (arith, er, go, stuck, frame)
        | inl again ↦
            let (less, well) = round-descends p u s w es quiet (inl again) in
            let rest =
              push_loop-descends fuel s.parser s.update o well go (rw (go, again) at er) frame in
            omega (arith, less, rest)
      ]
    ]

-- A call that presents a frame lowers the measure: a caller that calls again until there is no
-- frame to present comes to an end.
pub push-descends :
    (p : DisplayParser) (input : Bytes) (o : Pushed)
    → IsWellFormed p
    → push p input ≡ ok o
    → presents o.update ≡ true
    → measure o.parser < measure (receive p input)
unfolding push
push-descends p input o w e frame =
    push_loop-descends (fuel_for (receive p input).pending) (receive p input) no_update o
      (record { size = w.size; fits = w.fits; pages_byte = w.pages_byte }) refl e frame

pub measure-le : (p : DisplayParser) → measure p ≤ 4 * length p.pending + 3
measure-le p = ground (arith, last_weight-le p.sh1106_last_page_command)
