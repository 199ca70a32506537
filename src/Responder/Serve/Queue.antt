-- ===== src/Responder/Serve/Queue.antt =====
-- src/bin/target-driver.rs: `queue_response` ends.
use raspberry_pi_i2c_target.Prelude.{
  ℕ, zero, suc, ◌+◌, ◌-◌, ◌*◌, ◌≤◌, ◌<◌, Bool, true, false, ◌≡◌, ◌≢◌, arith, leb, if◌then◌else◌,
  Outcome, ok, err, panic, out_of_fuel, ErrorKind, Error, Bytes, Bool-cases, inl, inr,
}
use raspberry_pi_i2c_target.Responder.Device.{Device}
use raspberry_pi_i2c_target.Responder.Serve.{write_failed, after_write, queue_loop, queue_response}

abbrev pub is_interruption : ErrorKind → Bool
is_interruption ErrorKind.interrupted = true
is_interruption _ = false

-- How many interruptions a write leaves, of those that were to come.
abbrev pub Leaves : Outcome ℕ → ℕ → ℕ → Type 0
Leaves (ok n) before after = Unit
Leaves (err e) before after = if is_interruption e.kind then after < before else after ≤ before
Leaves panic before after = Unit
Leaves out_of_fuel before after = ⊥

-- The clock is monotone, a reading is the time, a sleep takes at least as long as was asked, and a
-- write is interrupted only so often.
pub record Patience (d : Device) : Type 0 where
  pub time : d.system.World → ℕ
  pub interruptions : d.system.World → ℕ
  pub reads :
      (w : d.system.World) → ((d.system.now w).0 ≡ time w) × (time w ≤ time (d.system.now w).1)
  pub now_leaves : (w : d.system.World) → interruptions (d.system.now w).1 ≤ interruptions w
  pub sleeps : (n : ℕ) (w : d.system.World) → time w + n ≤ time (d.system.sleep n w)
  pub sleep_leaves :
      (n : ℕ) (w : d.system.World) → interruptions (d.system.sleep n w) ≤ interruptions w
  pub write_time : (b : Bytes) (w : d.system.World) → time w ≤ time (d.write b w).1
  pub write_leaves :
      (b : Bytes) (w : d.system.World)
      → Leaves (d.write b w).0 (interruptions w) (interruptions (d.write b w).1)

module _ (d : Device) (t : Patience d) where
  -- Enough fuel: a round for each two milliseconds to the deadline and for each interruption.
  abbrev Enough : (fuel deadline : ℕ) → d.system.World → Type 0
  Enough fuel deadline w =
      (naps : ℕ) × (deadline ≤ t.time w + 2 * naps) × (naps + t.interruptions w < fuel)

  write_failed-ends :
      (fuel deadline naps before : ℕ) (again : d.system.World → Outcome {0} Unit × d.system.World)
      → ((w : d.system.World) → Enough fuel deadline w → (again w).0 ≢ out_of_fuel)
      → (kind : ErrorKind) (error : Error) (w : d.system.World)
      → Leaves (err (record error { kind = kind })) before (t.interruptions w)
      → deadline ≤ t.time w + 2 * naps
      → naps + before < suc fuel
      → (write_failed d deadline again kind error w).0 ≢ out_of_fuel
  unfolding write_failed
  write_failed-ends fuel deadline naps before again h ErrorKind.interrupted error w l due small =
      h w (naps, due, omega (arith, l, small))
  write_failed-ends fuel deadline naps before again h ErrorKind.would_block error w l due small =
      let w1 = (d.system.now w).1 in
      let w2 = d.system.sleep 2 w1 in
      let (reading, later) = t.reads w in
      elim (Bool-cases (leb deadline (d.system.now w).0)) [
        | inl late ↦ rw late (λ e. cc)
        | inr early ↦
            let before_deadline : (d.system.now w).0 < deadline = ground arith in
            rw early (
              h w2 (
                naps - 1,
                omega (arith, due, reading, later, before_deadline, t.sleeps 2 w1),
                omega (
                  arith,
                  due,
                  reading,
                  before_deadline,
                  small,
                  l,
                  t.now_leaves w,
                  t.sleep_leaves 2 w1,
                ),
              ))
      ]
  write_failed-ends fuel deadline naps before again h _ error w l due small = λ e. cc

  after_write-ends :
      (fuel deadline naps before : ℕ) (reply : Bytes)
      (again : d.system.World → Outcome {0} Unit × d.system.World)
      → ((w : d.system.World) → Enough fuel deadline w → (again w).0 ≢ out_of_fuel)
      → (r : Outcome ℕ) (w : d.system.World) → Leaves r before (t.interruptions w)
      → deadline ≤ t.time w + 2 * naps
      → naps + before < suc fuel
      → (after_write d deadline reply again r w).0 ≢ out_of_fuel
  unfolding after_write
  after_write-ends fuel deadline naps before reply again h (ok n) w l due small = ground arith
  after_write-ends fuel deadline naps before reply again h (err error) w l due small =
      write_failed-ends fuel deadline naps before again h error.kind error w l due small
  after_write-ends fuel deadline naps before reply again h panic w l due small = λ e. cc
  after_write-ends fuel deadline naps before reply again h out_of_fuel w l due small = absurd l

  queue_loop-ends :
      (fuel deadline : ℕ) (reply : Bytes) (w : d.system.World)
      → Enough fuel deadline w
      → (queue_loop d fuel deadline reply w).0 ≢ out_of_fuel
  unfolding queue_loop
  queue_loop-ends zero deadline reply w (naps, due, small) = absurd (omega (arith, small))
  queue_loop-ends (suc fuel) deadline reply w (naps, due, small) =
      after_write-ends fuel deadline naps (t.interruptions w) reply
        (queue_loop d fuel deadline reply) (queue_loop-ends fuel deadline reply) (d.write reply w).0
        (d.write reply w).1 (t.write_leaves reply w) (omega (arith, due, t.write_time reply w))
        small

  -- `queue_response` ends with a value, an error or a panic where its fuel is more than 2500, the
  -- naps of five seconds, and the number of interruptions to come.
  pub queue_response-ends :
      (fuel : ℕ) (reply : Bytes) (w : d.system.World)
      → 2500 + t.interruptions w < fuel
      → (queue_response d fuel reply w).0 ≢ out_of_fuel
  unfolding queue_response
  queue_response-ends fuel reply w small =
      let (reading, later) = t.reads w in
      queue_loop-ends fuel ((d.system.now w).0 + 5000) reply (d.system.now w).1
        (2500, omega (arith, reading, later), omega (arith, small, t.now_leaves w))
