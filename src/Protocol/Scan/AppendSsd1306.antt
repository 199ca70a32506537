-- ===== src/Protocol/Scan/AppendSsd1306.antt =====
-- src/display_protocol.rs: the first arm of `scan`, where more bytes stand behind those it reads.
use raspberry_pi_i2c_target.Prelude.{
  ◌≤◌, false, ◌≡◌, arith, length, length-append, drop-append, [], ◌∷◌, ◌++◌, Bytes, Bool-cases, inl,
  inr, starts_with, starts_with-length, starts_with-append, starts_with-append_right,
  starts_with-append_apart,
}
use raspberry_pi_i2c_target.Protocol.State.{ssd1306_init, ParseUpdate, DisplayParser}
use raspberry_pi_i2c_target.Protocol.Scan.{
  resynchronize, ssd1306_tail, valid_rectangle, scan_address, scan_ssd1306,
}
use raspberry_pi_i2c_target.Protocol.Push.{presents, receive}
use raspberry_pi_i2c_target.Protocol.Scan.Extend.{
  extend, Moves, has_pattern-eq, get_or-more, address_ne_init, drained-append,
}

module _ (p : DisplayParser) (u : ParseUpdate) (more : Bytes) (quiet : presents u ≡ false) where
  ssd1306_tail-append :
      Moves (ssd1306_tail p u) → ssd1306_tail (receive p more) u ≡ extend more (ssd1306_tail p u)
  unfolding ssd1306_tail resynchronize
  ssd1306_tail-append m = ground (
    arith,
    drop-append 1 p.pending more,
    length-append p.pending more,
    starts_with-append_right ssd1306_init p.pending more,
    starts_with-append_right (0x00 ∷ 0x21 ∷ []) p.pending more,
  )

  valid_rectangle-append :
      7 ≤ length p.pending → valid_rectangle (p.pending ++ more) ≡ valid_rectangle p.pending
  unfolding valid_rectangle
  valid_rectangle-append h = rw (
    get_or-more p.pending more 2 (omega arith),
    get_or-more p.pending more 3 (omega arith),
    get_or-more p.pending more 4 (omega arith),
    get_or-more p.pending more 5 (omega arith),
    get_or-more p.pending more 6 (omega arith),
  )

  ssd1306_tail_apart :
      Moves (ssd1306_tail p u)
      → (starts_with ssd1306_init p.pending ≡ false)
        × (starts_with (0x00 ∷ 0x21 ∷ []) p.pending ≡ false)
  unfolding ssd1306_tail
  ssd1306_tail_apart m = ground arith

  scan_address-append :
      Moves (scan_address p u) → scan_address (receive p more) u ≡ extend more (scan_address p u)
  unfolding scan_address
  scan_address-append m = ground (
    arith,
    starts_with-append p.pending (0x00 ∷ 0x21 ∷ []) more,
    starts_with-append_apart p.pending (0x00 ∷ 0x21 ∷ []) more,
    ssd1306_tail-append,
    ssd1306_tail_apart,
    valid_rectangle-append,
    get_or-more p.pending more 2,
    get_or-more p.pending more 3,
    get_or-more p.pending more 5,
    get_or-more p.pending more 6,
    drop-append 7 p.pending more,
    length-append p.pending more,
  )

  -- A stream that gets past the start-up sequence does not begin with it later on.
  scan_address_apart :
      Moves (scan_address p u)
      → starts_with p.pending ssd1306_init ≡ false
      → starts_with (p.pending ++ more) ssd1306_init ≡ false
  unfolding scan_address
  scan_address_apart m h = ground (
    arith,
    address_ne_init (p.pending ++ more),
    starts_with-append p.pending (0x00 ∷ 0x21 ∷ []) more,
    starts_with-append_apart p.pending ssd1306_init more,
    ssd1306_tail_apart,
  )

  pub scan_ssd1306-append :
      Moves (scan_ssd1306 p u) → scan_ssd1306 (receive p more) u ≡ extend more (scan_ssd1306 p u)
  unfolding scan_ssd1306
  scan_ssd1306-append m = elim (Bool-cases (starts_with p.pending ssd1306_init)) [
    | inl h ↦
        rw
          (
            has_pattern-eq p.pending ssd1306_init,
            has_pattern-eq (p.pending ++ more) ssd1306_init,
            h,
            starts_with-append p.pending ssd1306_init more h,
          )
          (drained-append u more 26 p (starts_with-length p.pending ssd1306_init h))
    | inr h ↦
        let m' : Moves (scan_address p u) = rw (has_pattern-eq p.pending ssd1306_init, h) at m in
        rw
          (
            has_pattern-eq p.pending ssd1306_init,
            has_pattern-eq (p.pending ++ more) ssd1306_init,
            h,
            scan_address_apart m' h,
          )
          (scan_address-append m')
  ]
