-- ===== src/Responder/Serve/Across.antt =====
-- src/bin/target-driver.rs: what each call of `serve` respects, the whole of it respects.
use raspberry_pi_i2c_target.Prelude.{
  ℕ, zero, suc, ◌+◌, Bool, true, false, not, Outcome, ok, err, panic, out_of_fuel, ErrorKind, Error,
  Bytes, >?-reaches, Bool-cases, inl, inr, leb, ◌==◌,
}
use raspberry_pi_i2c_target.Responder.Device.{Device}
use raspberry_pi_i2c_target.Responder.Serve.{
  Totals, count_request, report, response, write_failed, after_write, queue_loop, queue_response,
  handle_request, read_failed, handle_read, serve_loop, serve,
}

-- A preorder that holds between the worlds before and after each call that `serve` makes.
pub record Across (d : Device) : Type 1 where
  pub Reaches : d.system.World → d.system.World → Type 0
  pub stays : (w : d.system.World) → Reaches w w
  pub then : (u v w : d.system.World) → Reaches u v → Reaches v w → Reaches u w
  pub by_now : (w : d.system.World) → Reaches w (d.system.now w).1
  pub by_sleep : (n : ℕ) (w : d.system.World) → Reaches w (d.system.sleep n w)
  pub by_open : (writable : Bool) (w : d.system.World) → Reaches w (d.open_target writable w).1
  pub by_read : (w : d.system.World) → Reaches w (d.read w).1
  pub by_write : (b : Bytes) (w : d.system.World) → Reaches w (d.write b w).1
  pub by_running : (w : d.system.World) → Reaches w (d.is_running w).1

module _ (d : Device) (a : Across d) where
  write_failed-reaches :
      (deadline : ℕ) (again : d.system.World → Outcome {0} Unit × d.system.World)
      → ((w : d.system.World) → a.Reaches w (again w).1)
      → (kind : ErrorKind) (error : Error) (w : d.system.World)
      → a.Reaches w (write_failed d deadline again kind error w).1
  unfolding write_failed
  write_failed-reaches deadline again h ErrorKind.would_block error w =
      let w1 = (d.system.now w).1 in
      let w2 = d.system.sleep 2 w1 in
      elim (Bool-cases (leb deadline (d.system.now w).0)) [
        | inl late ↦ rw late (a.by_now w)
        | inr early ↦
            rw early (a.then w w1 _ (a.by_now w) (a.then w1 w2 _ (a.by_sleep 2 w1) (h w2)))
      ]
  write_failed-reaches deadline again h ErrorKind.interrupted error w = h w
  write_failed-reaches deadline again h _ error w = a.stays w

  after_write-reaches :
      (deadline : ℕ) (reply : Bytes) (again : d.system.World → Outcome {0} Unit × d.system.World)
      → ((w : d.system.World) → a.Reaches w (again w).1)
      → (r : Outcome ℕ) (w : d.system.World)
      → a.Reaches w (after_write d deadline reply again r w).1
  unfolding after_write
  after_write-reaches deadline reply again h (ok n) w = a.stays w
  after_write-reaches deadline reply again h (err error) w =
      write_failed-reaches deadline again h error.kind error w
  after_write-reaches deadline reply again h panic w = a.stays w
  after_write-reaches deadline reply again h out_of_fuel w = a.stays w

  queue_loop-reaches :
      (fuel deadline : ℕ) (reply : Bytes) (w : d.system.World)
      → a.Reaches w (queue_loop d fuel deadline reply w).1
  unfolding queue_loop
  queue_loop-reaches zero deadline reply w = a.stays w
  queue_loop-reaches (suc fuel) deadline reply w =
      a.then w (d.write reply w).1 _ (a.by_write reply w) (
        after_write-reaches deadline reply (queue_loop d fuel deadline reply)
          (queue_loop-reaches fuel deadline reply) (d.write reply w).0 (d.write reply w).1)

  queue_response-reaches :
      (fuel : ℕ) (reply : Bytes) (w : d.system.World)
      → a.Reaches w (queue_response d fuel reply w).1
  unfolding queue_response
  queue_response-reaches fuel reply w =
      a.then w (d.system.now w).1 _ (a.by_now w)
        (queue_loop-reaches fuel ((d.system.now w).0 + 5000) reply (d.system.now w).1)

  report-reaches : (v : Totals) (w : d.system.World) → a.Reaches w (report d v w).1
  report-reaches v w = elim (Bool-cases (v.received_transactions == 1)) [
    | inl first ↦ rw first (a.by_now w)
    | inr later ↦ elim (Bool-cases (leb v.next_report (d.system.now w).0)) [
      | inl due ↦ rw (later, due) (a.by_now w)
      | inr early ↦ rw (later, early) (a.by_now w)
    ]
  ]

  handle_request-reaches :
      (fuel : ℕ) (receive_only : Bool) (request : Bytes) (v : Totals) (w : d.system.World)
      → a.Reaches w (handle_request d fuel receive_only request v w).1
  unfolding handle_request
  handle_request-reaches fuel true request v w = report-reaches (count_request d v request) w
  handle_request-reaches fuel false request v w =
      >?-reaches a.Reaches a.then w (queue_response d fuel (response request) w) _
        (queue_response-reaches fuel (response request) w) (λ _ w. a.stays w)

  read_failed-reaches :
      (kind : ErrorKind) (error : Error) (v : Totals) (w : d.system.World)
      → a.Reaches w (read_failed d kind error v w).1
  unfolding read_failed
  read_failed-reaches ErrorKind.would_block error v w = a.by_sleep 2 w
  read_failed-reaches ErrorKind.interrupted error v w = a.stays w
  read_failed-reaches _ error v w = a.stays w

  pub handle_read-reaches :
      (fuel : ℕ) (receive_only : Bool) (r : Outcome Bytes) (v : Totals) (w : d.system.World)
      → a.Reaches w (handle_read d fuel receive_only r v w).1
  unfolding handle_read
  handle_read-reaches fuel receive_only (ok request) v w =
      handle_request-reaches fuel receive_only request v w
  handle_read-reaches fuel receive_only (err error) v w = read_failed-reaches error.kind error v w
  handle_read-reaches fuel receive_only panic v w = a.stays w
  handle_read-reaches fuel receive_only out_of_fuel v w = a.stays w

  serve_loop-reaches :
      (rounds fuel : ℕ) (receive_only : Bool) (v : Totals) (w : d.system.World)
      → a.Reaches w (serve_loop d rounds fuel receive_only v w).1
  unfolding serve_loop
  serve_loop-reaches zero fuel receive_only v w = a.stays w
  serve_loop-reaches (suc rounds) fuel receive_only v w =
      let w1 = (d.is_running w).1 in
      let w2 = (d.read w1).1 in
      let round = handle_read d fuel receive_only (d.read w1).0 v w2 in
      elim (Bool-cases (d.is_running w).0) [
        | inr stopped ↦ rw stopped (a.by_running w)
        | inl running ↦ rw running (
            >?-reaches a.Reaches a.then w round _
              (a.then w w1 _ (a.by_running w) (
                a.then w1 w2 _ (a.by_read w1)
                  (handle_read-reaches fuel receive_only (d.read w1).0 v w2)))
              (serve_loop-reaches rounds fuel receive_only))
      ]

  pub serve-reaches :
      (rounds fuel : ℕ) (receive_only : Bool) (w : d.system.World)
      → a.Reaches w (serve d rounds fuel receive_only w).1
  unfolding serve
  serve-reaches rounds fuel receive_only w =
      >?-reaches a.Reaches a.then w (d.open_target (not receive_only) w) _
        (a.by_open (not receive_only) w)
        λ _ v.
          a.then v (d.system.now v).1 _ (a.by_now v)
            (serve_loop-reaches rounds fuel receive_only _ (d.system.now v).1)
