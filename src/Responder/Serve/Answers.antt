-- ===== src/Responder/Serve/Answers.antt =====
-- src/bin/target-driver.rs: which responses the device takes while `serve` runs.
use raspberry_pi_i2c_target.Prelude.{
  ℕ, zero, suc, ◌+◌, false, ◌≡◌, sym, ap, ◌∙◌, List, [], ◌∷◌, ◌++◌, map, map-append, leb, length,
  ◌==◌, Outcome, ok, err, panic, out_of_fuel, ErrorKind, Error, Bytes, Bool-cases, inl, inr, ◌>?◌,
}
use raspberry_pi_i2c_target.Responder.Device.{Device, Log, add_record, add_response}
use raspberry_pi_i2c_target.Responder.Serve.{
  Totals, response, write_failed, after_write, queue_loop, queue_response, handle_request,
  read_failed, handle_read, serve_loop,
}

module _ (d : Device) (g : Log d) where
  -- One more response than before, where the call has returned; as many, where it has failed.
  abbrev Queued : Bytes → List Bytes → List Bytes → Outcome {0} Unit × d.system.World → Type 0
  Queued reply records before (ok a, w) =
      (g.records w ≡ records) × (g.responses w ≡ before ++ (reply ∷ []))
  Queued reply records before (err e, w) = (g.records w ≡ records) × (g.responses w ≡ before)
  Queued reply records before (panic, w) = Unit
  Queued reply records before (out_of_fuel, w) = Unit

  write_failed-Queued :
      (deadline : ℕ) (reply : Bytes) (records before : List Bytes)
      (again : d.system.World → Outcome {0} Unit × d.system.World)
      → ((w : d.system.World)
          → g.records w ≡ records
          → g.responses w ≡ before
          → Queued reply records before (again w))
      → (kind : ErrorKind) (error : Error) (w : d.system.World) → g.records w ≡ records
      → g.responses w ≡ before
      → Queued reply records before (write_failed d deadline again kind error w)
  unfolding write_failed
  write_failed-Queued deadline reply records before again h ErrorKind.would_block error w r q =
      let w1 = (d.system.now w).1 in
      let (r1, q1) = g.now_keeps w in
      let (r2, q2) = g.sleep_keeps 2 w1 in
      elim (Bool-cases (leb deadline (d.system.now w).0)) [
        | inl late ↦ rw late (r1 ∙ r, q1 ∙ q)
        | inr early ↦ rw early (h (d.system.sleep 2 w1) (r2 ∙ r1 ∙ r) (q2 ∙ q1 ∙ q))
      ]
  write_failed-Queued deadline reply records before again h ErrorKind.interrupted error w r q =
      h w r q
  write_failed-Queued deadline reply records before again h _ error w r q = (r, q)

  after_write-Queued :
      (deadline : ℕ) (reply : Bytes) (records before : List Bytes)
      (again : d.system.World → Outcome {0} Unit × d.system.World)
      → ((w : d.system.World)
          → g.records w ≡ records
          → g.responses w ≡ before
          → Queued reply records before (again w))
      → (r : Outcome ℕ) (w : d.system.World) → g.records w ≡ records
      → g.responses w ≡ add_response reply r before
      → Queued reply records before (after_write d deadline reply again r w)
  unfolding after_write
  after_write-Queued deadline reply records before again h (ok n) w e q =
      elim (Bool-cases (n == length reply)) [
        | inl all ↦ rw all (e, q ∙ rw all)
        | inr part ↦ rw part (e, q ∙ rw part)
      ]
  after_write-Queued deadline reply records before again h (err error) w e q =
      write_failed-Queued deadline reply records before again h error.kind error w e q
  after_write-Queued deadline reply records before again h panic w e q = tt
  after_write-Queued deadline reply records before again h out_of_fuel w e q = tt

  queue_loop-Queued :
      (fuel deadline : ℕ) (reply : Bytes) (records before : List Bytes) (w : d.system.World)
      → g.records w ≡ records
      → g.responses w ≡ before
      → Queued reply records before (queue_loop d fuel deadline reply w)
  unfolding queue_loop
  queue_loop-Queued zero deadline reply records before w e q = tt
  queue_loop-Queued (suc fuel) deadline reply records before w e q =
      after_write-Queued deadline reply records before (queue_loop d fuel deadline reply)
        (queue_loop-Queued fuel deadline reply records before) (d.write reply w).0
        (d.write reply w).1 (g.write_keeps reply w ∙ e)
        (g.write_responses reply w ∙ ap (add_response reply (d.write reply w).0) q)

  -- The device has taken the response to each record, in the order of the records, and no other.
  abbrev pub IsAnswered : d.system.World → Type 0
  IsAnswered w = g.responses w ≡ map response (g.records w)

  -- Such is the world where the call returns.
  abbrev LeavesAnswered : Outcome Totals × d.system.World → Type 0
  LeavesAnswered (ok v, w) = IsAnswered w
  LeavesAnswered (err e, w) = Unit
  LeavesAnswered (panic, w) = Unit
  LeavesAnswered (out_of_fuel, w) = Unit

  request-LeavesAnswered :
      (request : Bytes) (records : List Bytes) (v : Totals) (m : Outcome {0} Unit × d.system.World)
      → Queued (response request) (records ++ (request ∷ [])) (map response records) m
      → LeavesAnswered (m >? λ _ w. (ok v, w))
  request-LeavesAnswered request records v (ok a, w) (e, q) =
      q ∙ sym (ap (map response) e ∙ map-append response records (request ∷ []))
  request-LeavesAnswered request records v (err e, w) h = tt
  request-LeavesAnswered request records v (panic, w) h = tt
  request-LeavesAnswered request records v (out_of_fuel, w) h = tt

  read_failed-LeavesAnswered :
      (kind : ErrorKind) (error : Error) (v : Totals) (w : d.system.World)
      → IsAnswered w
      → LeavesAnswered (read_failed d kind error v w)
  unfolding read_failed
  read_failed-LeavesAnswered ErrorKind.would_block error v w h =
      let (e, q) = g.sleep_keeps 2 w in q ∙ h ∙ sym (ap (map response) e)
  read_failed-LeavesAnswered ErrorKind.interrupted error v w h = h
  read_failed-LeavesAnswered _ error v w h = tt

  handle_read-LeavesAnswered :
      (fuel : ℕ) (r : Outcome Bytes) (v : Totals) (records : List Bytes) (w : d.system.World)
      → g.records w ≡ add_record r records
      → g.responses w ≡ map response records
      → LeavesAnswered (handle_read d fuel false r v w)
  unfolding handle_read handle_request queue_response
  handle_read-LeavesAnswered fuel (ok request) v records w e q =
      request-LeavesAnswered request records v (queue_response d fuel (response request) w) (
        queue_loop-Queued fuel ((d.system.now w).0 + 5000) (response request)
          (records ++ (request ∷ [])) (map response records) (d.system.now w).1
          ((g.now_keeps w).0 ∙ e) ((g.now_keeps w).1 ∙ q))
  handle_read-LeavesAnswered fuel (err error) v records w e q =
      read_failed-LeavesAnswered error.kind error v w (q ∙ sym (ap (map response) e))
  handle_read-LeavesAnswered fuel panic v records w e q = tt
  handle_read-LeavesAnswered fuel out_of_fuel v records w e q = tt

  totals-LeavesAnswered :
      (m : Outcome Totals × d.system.World)
      (k : Totals → d.system.World → Outcome Totals × d.system.World)
      → LeavesAnswered m
      → ((v : Totals) (w : d.system.World) → IsAnswered w → LeavesAnswered (k v w))
      → LeavesAnswered (m >? k)
  totals-LeavesAnswered (ok v, w) k h f = f v w h
  totals-LeavesAnswered (err e, w) k h f = tt
  totals-LeavesAnswered (panic, w) k h f = tt
  totals-LeavesAnswered (out_of_fuel, w) k h f = tt

  -- The loop keeps it.
  loop-LeavesAnswered :
      (rounds fuel : ℕ) (v : Totals) (w : d.system.World)
      → IsAnswered w
      → LeavesAnswered (serve_loop d rounds fuel false v w)
  unfolding serve_loop
  loop-LeavesAnswered zero fuel v w h = tt
  loop-LeavesAnswered (suc rounds) fuel v w h =
      let w1 = (d.is_running w).1 in
      let (e, q) = g.running_keeps w in
      let there : IsAnswered w1 = q ∙ h ∙ sym (ap (map response) e) in
      elim (Bool-cases (d.is_running w).0) [
        | inr stopped ↦ rw stopped there
        | inl running ↦ rw running (
            totals-LeavesAnswered (handle_read d fuel false (d.read w1).0 v (d.read w1).1)
              (serve_loop d rounds fuel false)
              (handle_read-LeavesAnswered fuel (d.read w1).0 v (g.records w1) (d.read w1).1
                (g.read_records w1) (g.read_keeps w1 ∙ there))
              (loop-LeavesAnswered rounds fuel))
      ]

  returned :
      (m : Outcome Totals × d.system.World) (v : Totals)
      → m.0 ≡ ok v
      → LeavesAnswered m
      → IsAnswered m.1
  returned (ok u, w) v e h = h
  returned (err error, w) v e h = cc
  returned (panic, w) v e h = cc
  returned (out_of_fuel, w) v e h = cc

  -- In response mode, if the device has taken the response to each record that it has given, in
  -- their order, and no other, this is so again where the loop of `serve` returns.
  pub serve_loop-LeavesAnswered :
      (rounds fuel : ℕ) (v v' : Totals) (w : d.system.World)
      → IsAnswered w
      → (serve_loop d rounds fuel false v w).0 ≡ ok v'
      → IsAnswered (serve_loop d rounds fuel false v w).1
  serve_loop-LeavesAnswered rounds fuel v v' w h e =
      returned (serve_loop d rounds fuel false v w) v' e (loop-LeavesAnswered rounds fuel v w h)
