-- ===== src/Protocol/Wire/Rounds.antt =====
-- src/display_protocol.rs: the loop of `push`, a round at a time.
use raspberry_pi_i2c_target.Prelude.{
  ℕ, suc, ◌+◌, ◌*◌, true, false, ◌⊎◌, ◌≡◌, arith, ◌++◌, Bytes, ok, length, [], drop, drop_all,
  starts_with,
}
use raspberry_pi_i2c_target.Protocol.State.{ParseUpdate, no_update, ParseState, DisplayParser, Step}
use raspberry_pi_i2c_target.Protocol.Push.{step_in, step, presents, push_loop, receive, push}
use raspberry_pi_i2c_target.Protocol.Scan.{
  waiting, has_pattern, ssd1306_tail, scan_address, scan_ssd1306, sh1106_tail, scan_page,
  scan_sh1106, scan_as, scan,
}
use raspberry_pi_i2c_target.Protocol.Data.{read_ssd1306_data, read_sh1106_page_data}

module _ (fuel : ℕ) (p : DisplayParser) (u : ParseUpdate) (s : Step) (e : step p u ≡ ok s) where
  pub push_loop_go :
      s.progressed ≡ true
      → presents s.update ≡ false
      → push_loop (suc fuel) p u ≡ push_loop fuel s.parser s.update
  unfolding push_loop
  push_loop_go go quiet = ground (arith, e)

  pub push_loop_stop :
      (presents s.update ≡ true) ⊎ (s.progressed ≡ false)
      → push_loop (suc fuel) p u ≡ ok (record { parser = s.parser; update = s.update })
  unfolding push_loop
  push_loop_stop stop = ground (arith, e)

-- The fuel of `push` is enough for two rounds, and for three where there is a byte.
pub push_fuel :
    (p : DisplayParser) (input : Bytes)
    → push p input
      ≡ push_loop (suc (suc (2 * length (p.pending ++ input)))) (receive p input) no_update
unfolding push
push_fuel p input = rw (count (length (p.pending ++ input)))
  where
    count : (n : ℕ) → 2 * n + 2 ≡ suc (suc (2 * n))
    count n = omega arith

module _ (p : DisplayParser) (u : ParseUpdate) where
  pub step-scan : p.state ≡ ParseState.scan → step p u ≡ ok (scan p u)
  unfolding step step_in
  step-scan e = rw e

  pub step_ssd1306 :
      (x width page pages : ℕ)
      → p.state ≡ ParseState.ssd1306_data x width page pages
      → step p u ≡ read_ssd1306_data x width page pages p u
  unfolding step step_in
  step_ssd1306 x width page pages e = rw e

  pub step_sh1106 :
      (page x width : ℕ)
      → p.state ≡ ParseState.sh1106_page_data page x width
      → step p u ≡ read_sh1106_page_data page x width p u
  unfolding step step_in
  step_sh1106 page x width e = rw e

-- A message that is read whole leaves nothing.
pub drop-eq-nil : (n : ℕ) (xs : Bytes) → n ≡ length xs → drop n xs ≡ []
drop-eq-nil n xs e = rw e (drop_all xs)

-- An empty stream waits.
pub scan-nil : (p : DisplayParser) (u : ParseUpdate) → p.pending ≡ [] → scan p u ≡ waiting p u
unfolding scan scan_as scan_ssd1306 scan_address scan_sh1106 scan_page ssd1306_tail sh1106_tail
    has_pattern starts_with
scan-nil p u e = ground (arith, e)
