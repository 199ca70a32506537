-- ===== src/Protocol/Data/Append.antt =====
-- src/display_protocol.rs: bytes that arrive behind a complete message do not change its effect.
use raspberry_pi_i2c_target.Prelude.{
  ℕ, zero, suc, ◌+◌, ◌-◌, ◌*◌, ◌≤◌, false, ◌≡◌, refl, arith, length, length-append, drop,
  drop-append, take-append, length-drop, ◌++◌, Bytes, Bool-cases, inl, inr, leb, slice, ok,
}
use raspberry_pi_i2c_target.Protocol.State.{ParseUpdate, DisplayParser, Step}
use raspberry_pi_i2c_target.Protocol.Data.{
  copy_rows, read_ssd1306_data, mark_page, finish_page, finish_rectangle, read_sh1106_page_data,
}
use raspberry_pi_i2c_target.Protocol.Push.{presents, receive}
use raspberry_pi_i2c_target.Protocol.Scan.Extend.{extend, Moves, get_or-more}

slice-append :
    (xs more : Bytes) (from to : ℕ) → to ≤ length xs → slice (xs ++ more) from to ≡ slice xs from to
unfolding slice
slice-append xs more from to h = elim (Bool-cases (leb from to)) [
  | inl le ↦
      let fits : to - from ≤ length (drop from xs) = ground (arith, length-drop from xs) in
      ground (
        arith,
        length-append xs more,
        drop-append from xs more,
        take-append (to - from) (drop from xs) more fits,
      )
  | inr gt' ↦ rw gt' refl
]

copy_rows-append :
    (left offset x width page : ℕ) (pending more framebuffer : Bytes)
    → 1 + (offset + left) * width ≤ length pending
    → copy_rows left offset x width page (pending ++ more) framebuffer
      ≡ copy_rows left offset x width page pending framebuffer
unfolding copy_rows
copy_rows-append zero offset x width page pending more fb h = refl
copy_rows-append (suc left) offset x width page pending more fb h =
    let ih : (copied : Bytes)
        → copy_rows left (offset + 1) x width page (pending ++ more) copied
          ≡ copy_rows left (offset + 1) x width page pending copied =
      λ copied. copy_rows-append left (offset + 1) x width page pending more copied (omega arith) in
    rw (slice-append pending more (1 + offset * width) (1 + offset * width + width) (grind arith))
      (simp ih)

module _ (p : DisplayParser) (u : ParseUpdate) (more : Bytes) (quiet : presents u ≡ false)
    (s : Step) (m : Moves s) where
  pub read_ssd1306_data-append :
      (x width page pages : ℕ)
      → read_ssd1306_data x width page pages p u ≡ ok s
      → read_ssd1306_data x width page pages (receive p more) u ≡ ok (extend more s)
  unfolding read_ssd1306_data finish_rectangle
  read_ssd1306_data-append x width page pages e = ground (
    arith,
    get_or-more p.pending more 0,
    length-append p.pending more,
    copy_rows-append pages 0 x width page p.pending more p.framebuffer,
    drop-append (width * pages + 1) p.pending more,
  )

  pub read_sh1106_page_data-append :
      (page x width : ℕ)
      → read_sh1106_page_data page x width p u ≡ ok s
      → read_sh1106_page_data page x width (receive p more) u ≡ ok (extend more s)
  unfolding read_sh1106_page_data mark_page finish_page
  read_sh1106_page_data-append page x width e = ground (
    arith,
    get_or-more p.pending more 0,
    length-append p.pending more,
    slice-append p.pending more 1 (width + 1),
    drop-append (width + 1) p.pending more,
  )
