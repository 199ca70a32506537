-- ===== src/Direct/Target/Pins.antt =====
-- src/bin/target.rs: what talks to the BSC target leaves the registers of the pins alone.
use raspberry_pi_i2c_target.Prelude.{
  ℕ, zero, suc, ◌%◌, ◌≡◌, refl, ap, ◌∙◌, arith, ◌==◌, ◌||◌, ltb, [], ◌∷◌, ◌++◌, length, bit_and,
  bit_or, Bool-cases, inl, inr, Bytes, >?-keeps,
}
use raspberry_pi_i2c_target.Direct.Machine.{Page, Machine, Peripheral, store, take_byte, Registers}
use raspberry_pi_i2c_target.Direct.Target.{
  HardwareTarget, bsc_dr, bsc_fr, bsc_fr_tx_busy, bsc_fr_rx_busy, bsc_fr_tx_full, bsc_fr_rx_empty,
  drain_received, receiving, wait_while, send_bytes, restart, queue_response,
}

store-pins : (register value : ℕ) (p : Peripheral) → (store Page.bsc register value p).pins ≡ p.pins
store-pins register value p = ground arith

take_byte-pins :
    (page : Page) (register value : ℕ) (p : Peripheral)
    → (take_byte page register value p).pins ≡ p.pins
take_byte-pins Page.gpio register value p = refl
take_byte-pins Page.bsc register value p = ground arith

module _ (m : Machine) (r : Registers m) where
  abbrev pub pins_of : m.World → ℕ → ℕ
  pins_of w = (r.peripheral w).pins

  pub read_register-pins :
      (page : Page) (register : ℕ) (w : m.World)
      → pins_of (m.read_register page register w).1 ≡ pins_of w
  read_register-pins page register w =
      ap (λ (p : Peripheral). p.pins) (r.read_loads page register w)
      ∙ take_byte-pins page register (m.read_register page register w).0 (r.peripheral w)

  pub write_register-pins :
      (register value : ℕ) (w : m.World)
      → pins_of (m.write_register Page.bsc register value w) ≡ pins_of w
  write_register-pins register value w =
      ap (λ (p : Peripheral). p.pins) (r.write_stores Page.bsc register value w)
      ∙ store-pins register value (r.peripheral w)

  pub sleep-pins : (n : ℕ) (w : m.World) → pins_of (m.sleep n w) ≡ pins_of w
  sleep-pins n w = ap (λ (p : Peripheral). p.pins) (r.sleep_keeps n w)

  wait_while-pins : (mask fuel : ℕ) (w : m.World) → pins_of (wait_while m mask fuel w).1 ≡ pins_of w
  unfolding wait_while
  wait_while-pins mask zero w = refl
  wait_while-pins mask (suc fuel) w =
      let w1 = (m.read_register Page.bsc bsc_fr w).1 in
      let polled = read_register-pins Page.bsc bsc_fr w in
      elim (Bool-cases (bit_and (m.read_register Page.bsc bsc_fr w).0 mask == 0)) [
        | inl clear ↦ rw clear polled
        | inr set ↦ rw set (wait_while-pins mask fuel (m.sleep 20 w1) ∙ sleep-pins 20 w1 ∙ polled)
      ]

  send_bytes-pins :
      (fuel : ℕ) (bytes : Bytes) (w : m.World) → pins_of (send_bytes m fuel bytes w).1 ≡ pins_of w
  unfolding send_bytes
  send_bytes-pins fuel [] w = refl
  send_bytes-pins fuel (byte ∷ bytes) w =
      >?-keeps pins_of (pins_of w) (wait_while m bsc_fr_tx_full fuel w) _
        (wait_while-pins bsc_fr_tx_full fuel w)
        (λ _ v e.
          send_bytes-pins fuel bytes (m.write_register Page.bsc bsc_dr byte v)
          ∙ write_register-pins bsc_dr byte v
          ∙ e)

  restart-pins : (address : ℕ) (w : m.World) → pins_of (restart m address w) ≡ pins_of w
  restart-pins address w = simp write_register-pins

  pub queue_response-pins :
      (fuel : ℕ) (t : HardwareTarget) (response : Bytes) (w : m.World)
      → pins_of (queue_response m fuel t response w).1 ≡ pins_of w
  unfolding queue_response
  queue_response-pins fuel t response w =
      elim (Bool-cases (length response == 0 || ltb 15 (length response))) [
        | inl refused ↦ rw refused refl
        | inr fits ↦
            let mask = bit_or bsc_fr_tx_busy bsc_fr_rx_busy in
            rw fits (
              >?-keeps pins_of (pins_of w) (wait_while m mask fuel w) _
                (wait_while-pins mask fuel w)
                (λ _ v e.
                  send_bytes-pins fuel (length response % 256 ∷ response) (restart m t.address v)
                  ∙ restart-pins t.address v
                  ∙ e))
      ]

  pub drain_received-pins :
      (fuel : ℕ) (buffer : Bytes) (w : m.World)
      → pins_of (drain_received m fuel buffer w).1 ≡ pins_of w
  unfolding drain_received
  drain_received-pins zero buffer w = refl
  drain_received-pins (suc fuel) buffer w =
      let w1 = (m.read_register Page.bsc bsc_fr w).1 in
      let byte = (m.read_register Page.bsc bsc_dr w1).0 % 256 in
      let polled = read_register-pins Page.bsc bsc_fr w in
      elim (Bool-cases (bit_and (m.read_register Page.bsc bsc_fr w).0 bsc_fr_rx_empty == 0)) [
        | inr empty ↦ rw empty polled
        | inl more ↦ rw more (
            drain_received-pins fuel (buffer ++ (byte ∷ [])) (m.read_register Page.bsc bsc_dr w1).1
            ∙ read_register-pins Page.bsc bsc_dr w1
            ∙ polled)
      ]

  pub receiving-pins : (w : m.World) → pins_of (receiving m w).1 ≡ pins_of w
  unfolding receiving
  receiving-pins w = read_register-pins Page.bsc bsc_fr w
