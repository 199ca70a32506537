-- ===== src/Protocol/Data/Advance.antt =====
-- src/display_protocol.rs: one call of a data state's reader returns, keeps the parser well formed
-- and makes headway.
use raspberry_pi_i2c_target.Prelude.{
  ℕ, ◌+◌, ◌*◌, ◌≤◌, ◌<◌, bit_or, ◌^◌, bit_or-lt, ◌&&◌, ◌≡◌, refl, arith, length, drop, take,
  length-drop, get_or, Bytes, Bool-cases, inl, inr, ◌==◌, ltb, splice, length-splice,
  copy_from_slice-eq-splice, Outcome, ok, if◌then◌else◌,
}
use raspberry_pi_i2c_target.Protocol.State.{
  DisplayController, ParseUpdate, ParseState, DisplayParser, Step,
}
use raspberry_pi_i2c_target.Protocol.Data.{
  copy_rows, read_ssd1306_data, mark_page, finish_page, read_sh1106_page_data, rescan,
  finish_rectangle,
}
use raspberry_pi_i2c_target.Protocol.Scan.{waiting}
use raspberry_pi_i2c_target.Protocol.Data.Copy.{Copies, copy_rows-Copies, slice-eq, length-row}
use raspberry_pi_i2c_target.Protocol.Invariant.{IsWellFormed, Advances}

-- A round that returns.
pub record Runs (p : DisplayParser) (u : ParseUpdate) (r : Outcome Step) : Type 0 where
  pub out : Step
  pub returns : r ≡ ok out
  pub advances : Advances p u out

-- What a complete message holds: the marker, and at least its bytes behind it.
pub record IsComplete (pending : Bytes) (message_size : ℕ) : Type 0 where
  pub marker : get_or pending 0 0 ≡ 0x40
  pub enough : message_size ≤ length pending

module _ (p : DisplayParser) (u : ParseUpdate) (w : IsWellFormed p) where
  waiting-Runs : Runs p u (ok (waiting p u))
  waiting-Runs = record { out = waiting p u; returns = refl; advances = ground arith }

  module _ (x width page pages : ℕ) (c : p.controller ≡ DisplayController.ssd1306)
      (s : p.state ≡ ParseState.ssd1306_data x width page pages) where
    ssd1306_fits : (0 < width) × (x + width ≤ 128) × (0 < pages) × (page + pages ≤ 8)
    ssd1306_fits = rw (c, s) at w.fits

    -- The copy loop of a complete message.
    pub ssd1306_copies :
        IsComplete p.pending (width * pages + 1)
        → Copies x width page p.pending pages 0 p.framebuffer
            (copy_rows pages 0 x width page p.pending p.framebuffer)
    ssd1306_copies m =
        copy_rows-Copies x width page p.pending pages 0 p.framebuffer w.size ssd1306_fits.1
          (omega (arith, ssd1306_fits.3)) (omega (arith, m.enough))

    pub read_ssd1306_data_complete :
        (m : IsComplete p.pending (width * pages + 1))
        → read_ssd1306_data x width page pages p u
          ≡ ok (finish_rectangle x width page pages (width * pages + 1) (ssd1306_copies m).out p u)
    unfolding read_ssd1306_data
    read_ssd1306_data_complete m = ground (arith, (ssd1306_copies m).returns, m.marker, m.enough)

    finish_rectangle-Advances :
        (m : IsComplete p.pending (width * pages + 1))
        → Advances p u
            (finish_rectangle x width page pages (width * pages + 1) (ssd1306_copies m).out p u)
    unfolding finish_rectangle
    finish_rectangle-Advances m =
        ground (arith, (ssd1306_copies m).size, m.enough, length-drop (width * pages + 1) p.pending)

    rescan-Advances_ssd1306 : Advances p u (rescan p u)
    rescan-Advances_ssd1306 = ground arith

    pub read_ssd1306_data-Runs : Runs p u (read_ssd1306_data x width page pages p u)
    unfolding read_ssd1306_data
    read_ssd1306_data-Runs = elim (Bool-cases (length p.pending == 0)) [
      | inl e ↦ rw e waiting-Runs
      | inr e ↦ elim (Bool-cases (get_or p.pending 0 0 == 0x40)) [
        | inr other ↦
            rw (e, other)
              (record { out = rescan p u; returns = refl; advances = rescan-Advances_ssd1306 })
        | inl marker ↦ elim (Bool-cases (ltb (length p.pending) (width * pages + 1))) [
          | inl short ↦ rw (e, marker, short) waiting-Runs
          | inr long ↦
              let m : IsComplete p.pending (width * pages + 1) = record {
                marker = ground arith;
                enough = ground arith;
              } in
              record {
                out =
                    finish_rectangle x width page pages (width * pages + 1) (ssd1306_copies m).out p
                      u;
                returns = read_ssd1306_data_complete m;
                advances = finish_rectangle-Advances m;
              }
        ]
      ]
    ]

  module _ (page x width : ℕ) (c : p.controller ≡ DisplayController.sh1106)
      (s : p.state ≡ ParseState.sh1106_page_data page x width) where
    sh1106_fits : (page < 8) × (0 < width) × (x + width ≤ 128)
    sh1106_fits = rw (c, s) at w.fits

    -- The framebuffer and the page bits that a complete message leaves.
    abbrev pub page_copied : Bytes
    page_copied = splice p.framebuffer (page * 128 + x) (take width (drop 1 p.pending))

    abbrev pub pages_after : ℕ
    pages_after =
        if x == 0 && width == 128 then bit_or p.sh1106_pages (2 ^ page) else p.sh1106_pages

    abbrev pub page_read : Step
    page_read =
        finish_page page pages_after
          (record p {
            framebuffer = page_copied;
            pending = drop (width + 1) p.pending;
            state = ParseState.scan;
          })
          (record u { display_updates = u.display_updates + 1 })

    pub read_sh1106_page_data_complete :
        IsComplete p.pending (width + 1) → read_sh1106_page_data page x width p u ≡ ok page_read
    unfolding read_sh1106_page_data mark_page
    read_sh1106_page_data_complete m = ground (
      arith,
      slice-eq p.pending 1 (width + 1) width,
      length-row p.pending 1 width,
      copy_from_slice-eq-splice p.framebuffer (page * 128 + x) (page * 128 + x + width)
          (take width (drop 1 p.pending)),
      sh1106_fits,
      w.size,
      m.marker,
      m.enough,
    )

    pub page_read-Advances : IsComplete p.pending (width + 1) → Advances p u page_read
    unfolding finish_page
    page_read-Advances m = ground (
      arith,
      bit_or-lt p.sh1106_pages page,
      length-drop (width + 1) p.pending,
      length-row p.pending 1 width,
      length-splice p.framebuffer (page * 128 + x) (take width (drop 1 p.pending)),
      sh1106_fits,
      m.enough,
    )

    rescan-Advances_sh1106 : Advances p u (rescan p u)
    rescan-Advances_sh1106 = ground arith

    pub read_sh1106_page_data-Runs : Runs p u (read_sh1106_page_data page x width p u)
    unfolding read_sh1106_page_data
    read_sh1106_page_data-Runs = elim (Bool-cases (length p.pending == 0)) [
      | inl e ↦ rw e waiting-Runs
      | inr e ↦ elim (Bool-cases (get_or p.pending 0 0 == 0x40)) [
        | inr other ↦
            rw (e, other)
              (record { out = rescan p u; returns = refl; advances = rescan-Advances_sh1106 })
        | inl marker ↦ elim (Bool-cases (ltb (length p.pending) (width + 1))) [
          | inl short ↦ rw (e, marker, short) waiting-Runs
          | inr long ↦
              let m : IsComplete p.pending (width + 1) = record {
                marker = ground arith;
                enough = ground arith;
              } in
              record {
                out = page_read;
                returns = read_sh1106_page_data_complete m;
                advances = page_read-Advances m;
              }
        ]
      ]
    ]
