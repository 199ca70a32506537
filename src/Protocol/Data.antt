-- ===== src/Protocol/Data.antt =====
-- src/display_protocol.rs: `read_ssd1306_data` and `read_sh1106_page_data`.
pub mod Copy
pub mod Advance
pub mod Append
use raspberry_pi_i2c_target.Prelude.{
  ℕ, zero, suc, ◌+◌, ◌*◌, ◌/◌, ◌^◌, bit_or, Bool, true, false, not, ◌&&◌, none, length, get_or,
  drop, Bytes, slice, copy_from_slice, ltb, ◌==◌, if◌then◌else◌, Outcome, ok, panic, ◌>>=◌,
}
use raspberry_pi_i2c_target.Protocol.State.{
  display_width, display_height, ParseUpdate, ParseState, DisplayParser, Step,
}
use raspberry_pi_i2c_target.Protocol.Scan.{waiting}

-- `for offset in 0..pages`, from round `offset` with `left` rounds to go.
unfoldable pub copy_rows : ℕ → ℕ → ℕ → ℕ → ℕ → Bytes → Bytes → Outcome Bytes
copy_rows zero offset x width page pending framebuffer = ok framebuffer
copy_rows (suc left) offset x width page pending framebuffer = do
  let target = (page + offset) * display_width + x
  let source = 1 + offset * width
  row ← slice pending source (source + width)
  copied ← copy_from_slice framebuffer target (target + width) row
  copy_rows left (offset + 1) x width page pending copied

-- A byte other than 0x40 ends the data state.
abbrev pub rescan : DisplayParser → ParseUpdate → Step
rescan p u = record { progressed = true; parser = record p { state = ParseState.scan }; update = u }

-- `x == 0 && width == DISPLAY_WIDTH && page == 0 && pages == DISPLAY_HEIGHT / 8`
unfoldable pub is_full_frame : ℕ → ℕ → ℕ → ℕ → Bool
is_full_frame x width page pages =
    x == 0 && width == display_width && page == 0 && pages == display_height / 8

-- The lines behind the copy loop.
unfoldable pub finish_rectangle : ℕ → ℕ → ℕ → ℕ → ℕ → Bytes → DisplayParser → ParseUpdate → Step
finish_rectangle x width page pages message_size copied p u = record {
  progressed = true;
  parser = record p {
    framebuffer = copied;
    pending = drop message_size p.pending;
    state = ParseState.scan;
  };
  update = record u {
    display_updates = u.display_updates + 1;
    completed_frames = if full then u.completed_frames + 1 else u.completed_frames;
    partial_frame_boundary = if full then u.partial_frame_boundary else true;
  };
}
  where
    full : Bool
    full = is_full_frame x width page pages

unfoldable pub read_ssd1306_data : ℕ → ℕ → ℕ → ℕ → DisplayParser → ParseUpdate → Outcome Step
read_ssd1306_data x width page pages p u =
    if length p.pending == 0
    then ok (waiting p u)
    else if not (get_or p.pending 0 0 == 0x40)
    then ok (rescan p u)
    else if ltb (length p.pending) message_size
    then ok (waiting p u)
    else copy_rows pages 0 x width page p.pending p.framebuffer >>= λ copied.
        ok (finish_rectangle x width page pages message_size copied p u)
  where
    message_size : ℕ
    message_size = width * pages + 1

-- `self.sh1106_pages |= 1 << page` on a `u8`: a shift by eight or more panics.
unfoldable pub mark_page : ℕ → ℕ → Outcome ℕ
mark_page pages page = if ltb page 8 then ok (bit_or pages (2 ^ page)) else panic

-- The lines from `if x == 0 && width == DISPLAY_WIDTH` on, after the copy.
unfoldable pub finish_page : ℕ → ℕ → DisplayParser → ParseUpdate → Step
finish_page page pages p u =
    if page == 7
    then record {
      progressed = true;
      parser = record p {
        sh1106_frame_started = false;
        sh1106_pages = 0;
        sh1106_last_page_command = none;
      };
      update = record u {
        completed_frames = if whole then u.completed_frames + 1 else u.completed_frames;
        partial_frame_boundary = if whole then u.partial_frame_boundary else true;
      };
    }
    else record { progressed = true; parser = record p { sh1106_pages = pages }; update = u }
  where
    whole : Bool
    whole = p.sh1106_frame_started && pages == 0xff

unfoldable pub read_sh1106_page_data : ℕ → ℕ → ℕ → DisplayParser → ParseUpdate → Outcome Step
read_sh1106_page_data page x width p u =
    if length p.pending == 0
    then ok (waiting p u)
    else if not (get_or p.pending 0 0 == 0x40)
    then ok (rescan p u)
    else if ltb (length p.pending) message_size
    then ok (waiting p u)
    else do
      row ← slice p.pending 1 message_size
      copied ← copy_from_slice p.framebuffer start (start + width) row
      pages ←
          (if x == 0 && width == display_width
            then mark_page p.sh1106_pages page
            else ok p.sh1106_pages)
      ok (
          finish_page page pages
            (record p {
              framebuffer = copied;
              pending = drop message_size p.pending;
              state = ParseState.scan;
            })
            (record u { display_updates = u.display_updates + 1 }))
  where
    message_size : ℕ
    message_size = width + 1

    start : ℕ
    start = page * display_width + x
