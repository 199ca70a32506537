-- ===== src/Protocol/Scan/AppendSh1106.antt =====
-- src/display_protocol.rs: the second arm of `scan`, where more bytes stand behind those it reads.
use raspberry_pi_i2c_target.Prelude.{
  ℕ, ◌≤◌, bit_and, true, false, ◌≢◌, ◌≡◌, ◌∙◌, arith, length, length-append, drop-append, get_or,
  [], ◌∷◌, ◌++◌, Bytes, Bool-cases, inl, inr, ltb, starts_with, starts_with-length,
  starts_with-append, starts_with-append_right, starts_with-append_apart,
}
use raspberry_pi_i2c_target.Protocol.State.{
  sh1106_init, sh1106_display_on, ParseUpdate, DisplayParser,
}
use raspberry_pi_i2c_target.Protocol.Scan.{
  resynchronize, Range, incomplete, invalid, columns, page_range, ends_frame, sh1106_tail,
  begin_page, page_command, scan_page, scan_sh1106,
}
use raspberry_pi_i2c_target.Protocol.Scan.Advance.{RangeFits, page_range-RangeFits}
use raspberry_pi_i2c_target.Protocol.Push.{presents, receive}
use raspberry_pi_i2c_target.Protocol.Scan.Extend.{
  extend, Moves, has_pattern-eq, get_or-more, page_ne_init, page_range-append, zero_apart,
  on_ne_init, drained-append,
}

module _ (p : DisplayParser) (u : ParseUpdate) (more : Bytes) (quiet : presents u ≡ false) where
  sh1106_tail-append :
      Moves (sh1106_tail p u) → sh1106_tail (receive p more) u ≡ extend more (sh1106_tail p u)
  unfolding sh1106_tail resynchronize
  sh1106_tail-append m = ground (
    arith,
    drop-append 1 p.pending more,
    length-append p.pending more,
    starts_with-append_right sh1106_init p.pending more,
    starts_with-append_right sh1106_display_on p.pending more,
  )

  sh1106_tail_apart :
      Moves (sh1106_tail p u)
      → (starts_with sh1106_init p.pending ≡ false)
        × (starts_with sh1106_display_on p.pending ≡ false)
  unfolding sh1106_tail
  sh1106_tail_apart m = ground arith

  begin_page-append :
      (r : Range) (page : ℕ)
      → RangeFits r p.pending
      → Moves (begin_page r page p u)
      → begin_page r page (receive p more) u ≡ extend more (begin_page r page p u)
  unfolding begin_page
  begin_page-append incomplete page f m = ground arith
  begin_page-append invalid page f m = sh1106_tail-append m
  begin_page-append (columns n x width) page f m = drained-append u more n _ f.1

  begin_page_complete : (r : Range) (page : ℕ) → Moves (begin_page r page p u) → r ≢ incomplete
  unfolding begin_page
  begin_page_complete r page m = ground arith

  ends_frame-append :
      (page : ℕ) → 4 ≤ length p.pending → ends_frame (receive p more) page ≡ ends_frame p page
  unfolding ends_frame
  ends_frame-append page h = ground (
    arith,
    get_or-more p.pending more 2,
    get_or-more p.pending more 3,
    length-append p.pending more,
  )

  ends_frame-length : (page : ℕ) → ends_frame p page ≡ true → 4 ≤ length p.pending
  unfolding ends_frame
  ends_frame-length page h = ground arith

  page_command-append :
      (page : ℕ)
      → Moves (page_command page p u)
      → page_command page (receive p more) u ≡ extend more (page_command page p u)
  unfolding page_command
  page_command-append page m = elim (Bool-cases (ends_frame p page)) [
    | inl e ↦ rw (e, ends_frame-append page (ends_frame-length page e) ∙ e)
    | inr e ↦ elim (Bool-cases (ltb (length p.pending) 5)) [
      | inl short ↦ ground arith
      | inr long ↦
          let h : 5 ≤ length p.pending = ground arith in
          let m' : Moves (begin_page (page_range p.pending) page p u) = rw (e, long) at m in
          let whole = page_range-append p.pending more h (begin_page_complete _ page m') in
          rw (e, ends_frame-append page (omega arith) ∙ e, long, still_long h, whole)
            (begin_page-append _ page (page_range-RangeFits p.pending h) m')
    ]
  ]
    where
      still_long : 5 ≤ length p.pending → ltb (length (p.pending ++ more)) 5 ≡ false
      still_long h = ground (arith, length-append p.pending more)

  scan_page-append :
      Moves (scan_page p u) → scan_page (receive p more) u ≡ extend more (scan_page p u)
  unfolding scan_page
  scan_page-append m = ground (
    arith,
    starts_with-append p.pending (0x00 ∷ []) more,
    zero_apart p.pending more,
    sh1106_tail-append,
    sh1106_tail_apart,
    get_or-more p.pending more 1,
    page_command-append (bit_and (get_or p.pending 1 0) 7),
    length-append p.pending more,
  )

  scan_page_apart :
      Moves (scan_page p u)
      → starts_with p.pending sh1106_init ≡ false
      → starts_with p.pending sh1106_display_on ≡ false
      → (starts_with (p.pending ++ more) sh1106_init ≡ false)
        × (starts_with (p.pending ++ more) sh1106_display_on ≡ false)
  unfolding scan_page
  scan_page_apart m h k = ground (
    arith,
    page_ne_init (p.pending ++ more),
    get_or-more p.pending more 1,
    starts_with-append_apart p.pending sh1106_init more,
    starts_with-append_apart p.pending sh1106_display_on more,
    sh1106_tail_apart,
  )

  pub scan_sh1106-append :
      Moves (scan_sh1106 p u) → scan_sh1106 (receive p more) u ≡ extend more (scan_sh1106 p u)
  unfolding scan_sh1106
  scan_sh1106-append m = elim (Bool-cases (starts_with p.pending sh1106_init)) [
    | inl h ↦
        rw
          (
            has_pattern-eq p.pending sh1106_init,
            has_pattern-eq (p.pending ++ more) sh1106_init,
            h,
            starts_with-append p.pending sh1106_init more h,
          )
          (drained-append u more 26 p (starts_with-length p.pending sh1106_init h))
    | inr h ↦ elim (Bool-cases (starts_with p.pending sh1106_display_on)) [
      | inl on ↦
          let on' = starts_with-append p.pending sh1106_display_on more on in
          rw
            (
              has_pattern-eq p.pending sh1106_init,
              has_pattern-eq (p.pending ++ more) sh1106_init,
              has_pattern-eq p.pending sh1106_display_on,
              has_pattern-eq (p.pending ++ more) sh1106_display_on,
              h,
              on,
              on_ne_init (p.pending ++ more) on',
              on',
            )
            (drained-append u more 2 p (starts_with-length p.pending sh1106_display_on on))
      | inr off ↦
          let m' : Moves (scan_page p u) =
            rw
              (
                has_pattern-eq p.pending sh1106_init,
                has_pattern-eq p.pending sh1106_display_on,
                h,
                off,
              )
              at m in
          rw
            (
              has_pattern-eq p.pending sh1106_init,
              has_pattern-eq (p.pending ++ more) sh1106_init,
              has_pattern-eq p.pending sh1106_display_on,
              has_pattern-eq (p.pending ++ more) sh1106_display_on,
              h,
              off,
              (scan_page_apart m' h off).0,
              (scan_page_apart m' h off).1,
            )
            (scan_page-append m')
    ]
  ]
