-- ===== src/Direct/Target/Send.antt =====
-- src/bin/target.rs: what `drain_received` takes and what `queue_response` sends.
use raspberry_pi_i2c_target.Prelude.{
  ℕ, zero, suc, ◌%◌, ◌≤◌, ◌<◌, ◌≡◌, refl, ap, ◌∙◌, arith, ◌==◌, ◌||◌, ltb, true, false, [], ◌∷◌,
  ◌++◌, append-nil, append_assoc, length, bit_and, bit_or, Bool-cases, inl, inr, Outcome, ok, Bytes,
  ◌>?◌,
}
use raspberry_pi_i2c_target.Direct.Machine.{Page, Machine, Peripheral, Registers}
use raspberry_pi_i2c_target.Direct.Target.{
  HardwareTarget, bsc_dr, bsc_fr, bsc_control, bsc_fr_tx_busy, bsc_fr_rx_busy, bsc_fr_tx_full,
  bsc_fr_rx_empty, drain_received, wait_while, send_bytes, restart, queue_response,
}

-- Whatever is polled for comes: while the bus is busy or the transmit FIFO is full `delay` falls with
-- each nap, and while there is a byte to take `waiting` falls with each byte. Neither is ever more
-- than `limit`.
pub record Settles (m : Machine) (limit : ℕ) : Type 0 where
  pub delay : m.World → ℕ
  pub waiting : m.World → ℕ
  pub delay_limit : (w : m.World) → delay w ≤ limit
  pub waiting_limit : (w : m.World) → waiting w ≤ limit
  pub busy_falls :
      (w : m.World)
      → (bit_and (m.read_register Page.bsc bsc_fr w).0 (bit_or bsc_fr_tx_busy bsc_fr_rx_busy) == 0)
        ≡ false
      → delay (m.sleep 20 (m.read_register Page.bsc bsc_fr w).1) < delay w
  pub full_falls :
      (w : m.World)
      → (bit_and (m.read_register Page.bsc bsc_fr w).0 bsc_fr_tx_full == 0) ≡ false
      → delay (m.sleep 20 (m.read_register Page.bsc bsc_fr w).1) < delay w
  pub bytes_fall :
      (w : m.World)
      → (bit_and (m.read_register Page.bsc bsc_fr w).0 bsc_fr_rx_empty == 0) ≡ true
      → waiting (m.read_register Page.bsc bsc_dr (m.read_register Page.bsc bsc_fr w).1).1
        < waiting w

-- A run that has succeeded and left the hardware so.
abbrev pub Leaves : (m : Machine) → Registers m → Outcome {0} Unit × m.World → Peripheral → Type 0
Leaves m r run p = (run.0 ≡ ok tt) × (r.peripheral run.1 ≡ p)

abbrev pub add_sent : Bytes → Peripheral → Peripheral
add_sent bytes p = record p { sent = p.sent ++ bytes; queued = p.queued ++ bytes }

-- The peripheral behind `restart`.
abbrev pub restarted : ℕ → Peripheral → Peripheral
restarted address p = record p { control = bsc_control; slave = address; queued = [] }

module _ (m : Machine) (r : Registers m) where
  wait_while-Leaves :
      (delay : m.World → ℕ) (mask : ℕ)
      → ((w : m.World)
          → (bit_and (m.read_register Page.bsc bsc_fr w).0 mask == 0) ≡ false
          → delay (m.sleep 20 (m.read_register Page.bsc bsc_fr w).1) < delay w)
      → (fuel : ℕ) (w : m.World) → delay w < fuel
      → Leaves m r (wait_while m mask fuel w) (r.peripheral w)
  unfolding wait_while
  wait_while-Leaves delay mask falls zero w h = absurd (omega arith)
  wait_while-Leaves delay mask falls (suc fuel) w h =
      let w1 = (m.read_register Page.bsc bsc_fr w).1 in
      elim (Bool-cases (bit_and (m.read_register Page.bsc bsc_fr w).0 mask == 0)) [
        | inl clear ↦ rw clear (refl, r.read_loads Page.bsc bsc_fr w)
        | inr set ↦
            let less : delay (m.sleep 20 w1) < fuel = omega (arith, falls w set, h) in
            let (done, kept) = wait_while-Leaves delay mask falls fuel (m.sleep 20 w1) less in
            rw set (done, kept ∙ r.sleep_keeps 20 w1 ∙ r.read_loads Page.bsc bsc_fr w)
      ]

  -- One successful run in front of another.
  >?-Leaves :
      (run : Outcome {0} Unit × m.World) (next : m.World → Outcome {0} Unit × m.World)
      (p q : Peripheral)
      → Leaves m r run p
      → ((w : m.World) → r.peripheral w ≡ p → Leaves m r (next w) q)
      → Leaves m r (run >? λ _ w. next w) q
  >?-Leaves run next p q (done, at_p) h = rw done (h run.1 at_p)

  module _ (limit : ℕ) (s : Settles m limit) where
    send_bytes-Leaves :
        (fuel : ℕ) (bytes : Bytes) (w : m.World)
        → limit < fuel
        → Leaves m r (send_bytes m fuel bytes w) (add_sent bytes (r.peripheral w))
    unfolding send_bytes
    send_bytes-Leaves fuel [] w h = (refl, simp append-nil)
    send_bytes-Leaves fuel (byte ∷ bytes) w h =
        >?-Leaves (wait_while m bsc_fr_tx_full fuel w) _ (r.peripheral w)
          (add_sent (byte ∷ bytes) (r.peripheral w))
          (wait_while-Leaves s.delay bsc_fr_tx_full s.full_falls fuel w
            (omega (arith, s.delay_limit w, h)))
          (λ v e.
            let (done, behind) =
              send_bytes-Leaves fuel bytes (m.write_register Page.bsc bsc_dr byte v) h in
            (done, behind ∙ simp (r.write_stores, e, append_assoc)))

    -- If what is polled for comes within `limit` polls and the fuel is more than `limit`, then a
    -- response of 1 to 15 bytes is queued: the peripheral is first restarted and enabled at the
    -- target's address, and behind that, with no other write to its control or its address, what is
    -- sent is the length of the response and the response.
    pub queue_response-sends :
        (fuel : ℕ) (t : HardwareTarget) (response : Bytes) (w : m.World)
        → limit < fuel
        → 1 ≤ length response
        → length response ≤ 15
        → Leaves m r
            (queue_response m fuel t response w)
            (add_sent (length response ∷ response) (restarted t.address (r.peripheral w)))
    unfolding queue_response
    queue_response-sends fuel t response w h least most =
        let fits : (length response == 0 || ltb 15 (length response)) ≡ false = ground arith in
        let one_byte : length response % 256 ≡ length response = omega arith in
        let p = r.peripheral w in
        let sent = add_sent (length response ∷ response) (restarted t.address p) in
        rw (fits, one_byte)
          (>?-Leaves (wait_while m (bit_or bsc_fr_tx_busy bsc_fr_rx_busy) fuel w) _ p sent
            (wait_while-Leaves s.delay (bit_or bsc_fr_tx_busy bsc_fr_rx_busy) s.busy_falls fuel w
              (omega (arith, s.delay_limit w, h)))
            (λ v e.
              let (done, behind) =
                send_bytes-Leaves fuel (length response ∷ response) (restart m t.address v) h in
              (done, behind ∙ simp (r.write_stores, e))))

    -- The bytes that `drain_received` takes stand at the end of what it has been given, and nothing is
    -- sent.
    pub drain_received-takes :
        (fuel : ℕ) (buffer : Bytes) (w : m.World)
        → s.waiting w < fuel
        → (bytes : Bytes) × ((drain_received m fuel buffer w).0 ≡ ok (buffer ++ bytes))
          × ((r.peripheral (drain_received m fuel buffer w).1).taken
              ≡ (r.peripheral w).taken ++ bytes)
          × ((r.peripheral (drain_received m fuel buffer w).1).sent ≡ (r.peripheral w).sent)
    unfolding drain_received
    drain_received-takes zero buffer w h = absurd (omega arith)
    drain_received-takes (suc fuel) buffer w h =
        let w1 = (m.read_register Page.bsc bsc_fr w).1 in
        let w2 = (m.read_register Page.bsc bsc_dr w1).1 in
        let byte = (m.read_register Page.bsc bsc_dr w1).0 % 256 in
        let e1 = r.read_loads Page.bsc bsc_fr w in
        let e2 = r.read_loads Page.bsc bsc_dr w1 in
        elim (Bool-cases (bit_and (m.read_register Page.bsc bsc_fr w).0 bsc_fr_rx_empty == 0)) [
          | inr empty ↦ rw empty ([], rw append-nil refl, rw (e1, append-nil) refl, rw e1 refl)
          | inl more ↦
              let (bytes, done, taken, sent) =
                drain_received-takes fuel (buffer ++ (byte ∷ [])) w2
                  (omega (arith, s.bytes_fall w more, h)) in
              rw more (
                byte ∷ bytes,
                done ∙ ap ok (append_assoc buffer (byte ∷ []) bytes),
                taken ∙ simp (e2, e1, append_assoc),
                sent ∙ simp (e2, e1),
              )
        ]
