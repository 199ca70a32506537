-- ===== src/Protocol/Push/Append.antt =====
-- src/display_protocol.rs: how a stream is cut into calls of `push` does not matter.
use raspberry_pi_i2c_target.Prelude.{
  ℕ, zero, suc, ◌≤◌, ◌<◌, true, false, ◌≡◌, refl, sym, ap, ◌∙◌, arith, length-append, ◌++◌,
  append_assoc, Bytes, Bool-cases, inl, inr, Outcome, ok, map_ok, if◌then◌else◌,
}
use mathlib.Core.Path.{subst}
use raspberry_pi_i2c_target.Protocol.State.{ParseUpdate, no_update, ParseState, DisplayParser, Step}
use raspberry_pi_i2c_target.Protocol.Push.{
  step_in, step, presents, Pushed, push_loop, fuel_for, receive, push,
}
use raspberry_pi_i2c_target.Protocol.Push.Add.{add, add_pushed, push_loop-add}
use raspberry_pi_i2c_target.Protocol.Push.Total.{step-Runs, weight-lt-fuel_for}
use raspberry_pi_i2c_target.Protocol.Scan.{scan}
use raspberry_pi_i2c_target.Protocol.Scan.Extend.{extend, Moves}
use raspberry_pi_i2c_target.Protocol.Scan.Append.{scan-append}
use raspberry_pi_i2c_target.Protocol.Data.Append.{
  read_ssd1306_data-append, read_sh1106_page_data-append,
}
use raspberry_pi_i2c_target.Protocol.Invariant.{IsWellFormed, weight}

pub receive-IsWellFormed :
    (p : DisplayParser) (more : Bytes) → IsWellFormed p → IsWellFormed (receive p more)
receive-IsWellFormed p more w = record { size = w.size; fits = w.fits; pages_byte = w.pages_byte }

module _ (p : DisplayParser) (u : ParseUpdate) (more : Bytes) (quiet : presents u ≡ false)
    (s : Step) (m : Moves s) where
  step_in-append :
      (st : ParseState) → step_in st p u ≡ ok s → step_in st (receive p more) u ≡ ok (extend more s)
  unfolding step_in
  step_in-append ParseState.scan e =
      let same : scan p u ≡ s = cc in
      ap ok (scan-append p u more quiet (rw same m) ∙ ap (extend more) same)
  step_in-append (ParseState.ssd1306_data x width page pages) e =
      read_ssd1306_data-append p u more quiet s m x width page pages e
  step_in-append (ParseState.sh1106_page_data page x width) e =
      read_sh1106_page_data-append p u more quiet s m page x width e

  step-append : step p u ≡ ok s → step (receive p more) u ≡ ok (extend more s)
  unfolding step
  step-append = step_in-append p.state

-- With enough fuel its amount does not matter.
push_loop_enough :
    (fuel more : ℕ) (p : DisplayParser) (u : ParseUpdate)
    → IsWellFormed p
    → weight p < fuel
    → weight p < more
    → push_loop fuel p u ≡ push_loop more p u
unfolding push_loop
push_loop_enough zero more p u w h k = absurd (omega arith)
push_loop_enough (suc fuel) zero p u w h k = absurd (omega arith)
push_loop_enough (suc fuel) (suc more) p u w h k =
    let r = step-Runs p u w in
    rw r.returns (elim (Bool-cases r.out.progressed) [
      | inr stuck ↦ rw stuck (ground arith)
      | inl again ↦
          let falls = r.advances.falls again in
          let rest =
            push_loop_enough fuel more r.out.parser r.out.update r.advances.well_formed
              (omega (arith, falls)) (omega (arith, falls)) in
          rw rest refl
    ])

-- A run that ends at a frame boundary ends there too with bytes behind it.
push_loop-append_presenting :
    (fuel g : ℕ) (p : DisplayParser) (u : ParseUpdate) (more : Bytes) (o : Pushed)
    → IsWellFormed p
    → presents u ≡ false
    → push_loop fuel p u ≡ ok o
    → presents o.update ≡ true
    → fuel ≤ g
    → push_loop g (receive p more) u ≡ ok (record o { parser = receive o.parser more })
unfolding push_loop
push_loop-append_presenting zero g p u more o w q e b k = cc
push_loop-append_presenting (suc fuel) zero p u more o w q e b k = absurd (omega arith)
push_loop-append_presenting (suc fuel) (suc g) p u more o w q e b k =
    let r = step-Runs p u w in
    let s = r.out in
    let e' = rw r.returns at e in
    elim (Bool-cases (presents s.update)) [
      | inl stop ↦
          let last : Pushed = record { parser = s.parser; update = s.update } in
          let same : last ≡ o = ground (arith, e', stop) in
          rw (step-append p u more q s (inr stop) r.returns, stop)
            (ap (λ (t : Pushed). ok (record t { parser = receive t.parser more })) same)
      | inr go ↦ elim (Bool-cases s.progressed) [
        | inr stuck ↦ ground (arith, e', go, stuck, b)
        | inl again ↦
            rw (step-append p u more q s (inl again) r.returns, go, again)
              (push_loop-append_presenting fuel g s.parser s.update more o r.advances.well_formed go
                (rw (go, again) at e') b (omega arith))
      ]
    ]

push_loop_settled :
    (p : DisplayParser) (u : ParseUpdate) (more : Bytes) (o : Pushed) (g h : ℕ)
    → IsWellFormed p
    → record { parser = p; update = u } ≡ o
    → weight (receive p more) < g
    → weight (receive o.parser more) < h
    → push_loop g (receive p more) u ≡ push_loop h (receive o.parser more) o.update
push_loop_settled p u more o g h w same kg kh =
    subst
      (λ (t : Pushed).
        weight (receive t.parser more) < h
        → push_loop g (receive p more) u ≡ push_loop h (receive t.parser more) t.update)
      same (λ k. push_loop_enough g h (receive p more) u (receive-IsWellFormed p more w) kg k) kh

-- A run that ends for want of bytes goes on with the bytes behind it.
push_loop-append_waiting :
    (fuel : ℕ) (p : DisplayParser) (u : ParseUpdate) (more : Bytes) (o : Pushed) (g h : ℕ)
    → IsWellFormed p
    → presents u ≡ false
    → push_loop fuel p u ≡ ok o
    → presents o.update ≡ false
    → weight (receive p more) < g
    → weight (receive o.parser more) < h
    → push_loop g (receive p more) u ≡ push_loop h (receive o.parser more) o.update
unfolding push_loop
push_loop-append_waiting zero p u more o g h w q e b kg kh = cc
push_loop-append_waiting (suc fuel) p u more o zero h w q e b kg kh = absurd (omega arith)
push_loop-append_waiting (suc fuel) p u more o (suc g) h w q e b kg kh =
    let r = step-Runs p u w in
    let s = r.out in
    let e' = rw r.returns at e in
    elim (Bool-cases (presents s.update)) [
      | inl stop ↦ ground (arith, e', stop, b)
      | inr go ↦ elim (Bool-cases s.progressed) [
        | inr stuck ↦
            let idle = r.advances.idles stuck go in
            let start : Pushed = record { parser = p; update = u } in
            let same : start ≡ o = ground (arith, e', go, stuck, idle.0, idle.1) in
            push_loop_settled p u more o (suc g) h w same kg kh
        | inl again ↦
            rw (step-append p u more q s (inl again) r.returns, go, again)
              (push_loop-append_waiting fuel s.parser s.update more o g h r.advances.well_formed go
                (rw (go, again) at e') b
                (omega (
                  arith,
                  length-append s.parser.pending more,
                  length-append p.pending more,
                  r.advances.falls again,
                ))
                kh)
      ]
    ]

-- What is left to do behind a first part of a stream.
abbrev pub continue_push : Pushed → Bytes → Outcome Pushed
continue_push o more =
    if presents o.update
    then ok (record o { parser = receive o.parser more })
    else map_ok (add_pushed o.update) (push o.parser more)

pub add-no_update : (u : ParseUpdate) → add u no_update ≡ u
add-no_update u = ground arith

push-append_waiting :
    (p : DisplayParser) (first more : Bytes) (o : Pushed)
    → IsWellFormed p
    → push p first ≡ ok o
    → presents o.update ≡ false
    → push p (first ++ more) ≡ map_ok (add_pushed o.update) (push o.parser more)
unfolding push
push-append_waiting p first more o w e b = rw (← (append_assoc p.pending first more)) (
    push_loop-append_waiting (fuel_for (p.pending ++ first)) (receive p first) no_update more o
      (fuel_for ((p.pending ++ first) ++ more)) (fuel_for (o.parser.pending ++ more))
      (receive-IsWellFormed p first w) refl e b
      (weight-lt-fuel_for (receive (receive p first) more))
      (weight-lt-fuel_for (receive o.parser more))
    ∙ ap (push_loop (fuel_for (o.parser.pending ++ more)) (receive o.parser more))
        (sym (add-no_update o.update))
    ∙ push_loop-add o.update b _ (receive o.parser more) no_update)

push-append_presenting :
    (p : DisplayParser) (first more : Bytes) (o : Pushed)
    → IsWellFormed p
    → push p first ≡ ok o
    → presents o.update ≡ true
    → push p (first ++ more) ≡ ok (record o { parser = receive o.parser more })
unfolding push
push-append_presenting p first more o w e b = rw (← (append_assoc p.pending first more)) (
    push_loop-append_presenting (fuel_for (p.pending ++ first))
      (fuel_for ((p.pending ++ first) ++ more)) (receive p first) no_update more o
      (receive-IsWellFormed p first w) refl e b
      (omega (arith, length-append (p.pending ++ first) more)))

-- A well-formed parser that is given `first` and `more` in one piece does what it does with `first`
-- alone up to the point where `push` stops: at a frame boundary it stops there with `more` still
-- pending, and for want of bytes it goes on with `more` as a second call would, the updates added.
pub push-append :
    (p : DisplayParser) (first more : Bytes) (o : Pushed)
    → IsWellFormed p
    → push p first ≡ ok o
    → push p (first ++ more) ≡ continue_push o more
push-append p first more o w e = elim (Bool-cases (presents o.update)) [
  | inl stop ↦ rw stop (push-append_presenting p first more o w e stop)
  | inr go ↦ rw go (push-append_waiting p first more o w e go)
]
