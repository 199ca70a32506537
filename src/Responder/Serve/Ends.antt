-- ===== src/Responder/Serve/Ends.antt =====
-- src/bin/target-driver.rs: `serve` ends.
use raspberry_pi_i2c_target.Prelude.{
  ℕ, zero, suc, ◌+◌, ◌≤◌, ◌<◌, Bool, true, false, not, ◌≡◌, ◌≢◌, refl, arith, Outcome, ok, err,
  panic, out_of_fuel, ErrorKind, Error, Bytes, ◌>?◌, Bool-cases, inl, inr,
}
use raspberry_pi_i2c_target.Responder.Device.{Device}
use raspberry_pi_i2c_target.Responder.Serve.{
  Totals, response, queue_response, handle_request, read_failed, handle_read, serve_loop, serve,
}
use raspberry_pi_i2c_target.Responder.Serve.Queue.{Patience, queue_response-ends}
use raspberry_pi_i2c_target.Responder.Serve.Across.{Across, handle_read-reaches}

-- The flag is found set only so many times before a signal clears it. No call puts the signal off, or
-- makes more interruptions, and reading and opening return.
pub record Signal (d : Device) (t : Patience d) : Type 0 where
  pub remaining : d.system.World → ℕ
  pub found_set :
      (w : d.system.World) → (d.is_running w).0 ≡ true → remaining (d.is_running w).1 < remaining w
  pub running_leaves :
      (w : d.system.World)
      → (remaining (d.is_running w).1 ≤ remaining w)
        × (t.interruptions (d.is_running w).1 ≤ t.interruptions w)
  pub now_leaves : (w : d.system.World) → remaining (d.system.now w).1 ≤ remaining w
  pub sleep_leaves : (n : ℕ) (w : d.system.World) → remaining (d.system.sleep n w) ≤ remaining w
  pub write_leaves :
      (b : Bytes) (w : d.system.World)
      → (remaining (d.write b w).1 ≤ remaining w)
        × (t.interruptions (d.write b w).1 ≤ t.interruptions w)
  pub read_leaves :
      (w : d.system.World)
      → (remaining (d.read w).1 ≤ remaining w) × (t.interruptions (d.read w).1 ≤ t.interruptions w)
  pub open_leaves :
      (writable : Bool) (w : d.system.World)
      → (remaining (d.open_target writable w).1 ≤ remaining w)
        × (t.interruptions (d.open_target writable w).1 ≤ t.interruptions w)
  pub read_returns : (w : d.system.World) → (d.read w).0 ≢ out_of_fuel
  pub open_returns :
      (writable : Bool) (w : d.system.World) → (d.open_target writable w).0 ≢ out_of_fuel

module _ (d : Device) (t : Patience d) (s : Signal d t) where
  unfoldable signal_across : Across d
  signal_across = record {
    Reaches = λ w v. (s.remaining v ≤ s.remaining w) × (t.interruptions v ≤ t.interruptions w);
    stays = λ w. (omega arith, omega arith);
    then =
        λ u v w first second. (omega (arith, first.0, second.0), omega (arith, first.1, second.1));
    by_now = λ w. (s.now_leaves w, t.now_leaves w);
    by_sleep = λ n w. (s.sleep_leaves n w, t.sleep_leaves n w);
    by_open = s.open_leaves;
    by_read = s.read_leaves;
    by_write = s.write_leaves;
    by_running = s.running_leaves;
  }

  >?-ends :
      {A B : Type 0} (m : Outcome A × d.system.World)
      (next : A → d.system.World → Outcome B × d.system.World)
      → m.0 ≢ out_of_fuel
      → ((v : A) → (next v m.1).0 ≢ out_of_fuel)
      → (m >? next).0 ≢ out_of_fuel
  >?-ends (ok v, w) next h rest = rest v
  >?-ends (err error, w) next h rest = λ e. cc
  >?-ends (panic, w) next h rest = λ e. cc
  >?-ends (out_of_fuel, w) next h rest = absurd (h refl)

  handle_request-ends :
      (fuel : ℕ) (receive_only : Bool) (request : Bytes) (v : Totals) (w : d.system.World)
      → 2500 + t.interruptions w < fuel
      → (handle_request d fuel receive_only request v w).0 ≢ out_of_fuel
  unfolding handle_request
  handle_request-ends fuel true request v w enough = ground arith
  handle_request-ends fuel false request v w enough =
      >?-ends (queue_response d fuel (response request) w) (λ _ w. (ok v, w))
        (queue_response-ends d t fuel (response request) w enough) (λ _ e. cc)

  read_failed-ends :
      (kind : ErrorKind) (error : Error) (v : Totals) (w : d.system.World)
      → (read_failed d kind error v w).0 ≢ out_of_fuel
  unfolding read_failed
  read_failed-ends ErrorKind.would_block error v w = λ e. cc
  read_failed-ends ErrorKind.interrupted error v w = λ e. cc
  read_failed-ends _ error v w = λ e. cc

  handle_read-ends :
      (fuel : ℕ) (receive_only : Bool) (r : Outcome Bytes) (v : Totals) (w : d.system.World)
      → r ≢ out_of_fuel
      → 2500 + t.interruptions w < fuel
      → (handle_read d fuel receive_only r v w).0 ≢ out_of_fuel
  unfolding handle_read
  handle_read-ends fuel receive_only (ok request) v w h enough =
      handle_request-ends fuel receive_only request v w enough
  handle_read-ends fuel receive_only (err error) v w h enough =
      read_failed-ends error.kind error v w
  handle_read-ends fuel receive_only panic v w h enough = λ e. cc
  handle_read-ends fuel receive_only out_of_fuel v w h enough = absurd (h refl)

  serve_loop-ends :
      (rounds fuel : ℕ) (receive_only : Bool) (v : Totals) (w : d.system.World)
      → s.remaining w < rounds
      → 2500 + t.interruptions w < fuel
      → (serve_loop d rounds fuel receive_only v w).0 ≢ out_of_fuel
  unfolding serve_loop signal_across
  serve_loop-ends zero fuel receive_only v w few enough = absurd (omega (arith, few))
  serve_loop-ends (suc rounds) fuel receive_only v w few enough =
      let w1 = (d.is_running w).1 in
      let w2 = (d.read w1).1 in
      let round = handle_read d fuel receive_only (d.read w1).0 v w2 in
      let (_, tested) = s.running_leaves w in
      let (read, reading) = s.read_leaves w1 in
      elim (Bool-cases (d.is_running w).0) [
        | inr stopped ↦ rw stopped (λ e. cc)
        | inl running ↦
            let (round_left, round_interrupted) =
              handle_read-reaches d signal_across fuel receive_only (d.read w1).0 v w2 in
            let lower = s.found_set w running in
            rw running (
              >?-ends round _
                (handle_read-ends fuel receive_only (d.read w1).0 v w2 (s.read_returns w1)
                  (omega (arith, enough, tested, reading)))
                (λ v.
                  serve_loop-ends rounds fuel receive_only v round.1
                    (omega (arith, few, lower, read, round_left))
                    (omega (arith, enough, tested, reading, round_interrupted))))
      ]

  -- `serve` ends with its totals, an error or a panic, where its rounds are more than the number of
  -- times that the flag is still found set, and the fuel of each response is more than 2500, the naps
  -- of five seconds, and the number of interruptions to come.
  pub serve-ends :
      (rounds fuel : ℕ) (receive_only : Bool) (w : d.system.World)
      → s.remaining w < rounds
      → 2500 + t.interruptions w < fuel
      → (serve d rounds fuel receive_only w).0 ≢ out_of_fuel
  unfolding serve
  serve-ends rounds fuel receive_only w few enough =
      let w1 = (d.open_target (not receive_only) w).1 in
      let w2 = (d.system.now w1).1 in
      let (left, interrupted) = s.open_leaves (not receive_only) w in
      >?-ends (d.open_target (not receive_only) w) _ (s.open_returns (not receive_only) w) (λ _.
        serve_loop-ends rounds fuel receive_only _ w2 (omega (arith, few, left, s.now_leaves w1))
          (omega (arith, enough, interrupted, t.now_leaves w1)))
