-- ===== src/Protocol/Scan.antt =====
-- src/display_protocol.rs: `scan`, `consume_pattern` and `decode_column`. Each index is read behind
-- a test of the length, as in the source; the third argument of `get_or` is never returned.
pub mod Advance
pub mod Extend
pub mod AppendSsd1306
pub mod AppendSh1106
pub mod Append
use raspberry_pi_i2c_target.Prelude.{
  ℕ, ◌+◌, ◌-◌, ◌*◌, ◌/◌, bit_and, bit_or, Bool, true, false, not, ◌&&◌, ◌||◌, Option, none, some,
  [], ◌∷◌, length, get_or, drop, Bytes, starts_with, ltb, leb, ◌==◌, within, if◌then◌else◌,
}
use raspberry_pi_i2c_target.Protocol.State.{
  display_width, display_height, ssd1306_init, sh1106_init, sh1106_display_on, DisplayController,
  ParseUpdate, ParseState, DisplayParser, Step,
}

unfoldable pub decode_column : ℕ → ℕ → Option ℕ
decode_column low high =
    if leb low 0x0f && within 0x10 0x1f high
    then some (bit_or (bit_and high 0x0f * 16) low)
    else none

-- `self.consume_pattern(pattern)` returns this, and drops the pattern if it is true.
unfoldable pub has_pattern : Bytes → Bytes → Bool
has_pattern pending pattern =
    not (ltb (length pending) (length pattern) || not (starts_with pending pattern))

abbrev pub waiting : DisplayParser → ParseUpdate → Step
waiting p u = record { progressed = false; parser = p; update = u }

-- `return true` behind a `drain(..n)`
abbrev pub drained : ℕ → DisplayParser → ParseUpdate → Step
drained n p u = record {
  progressed = true;
  parser = record p { pending = drop n p.pending };
  update = u;
}

-- The lines behind the `match` of `scan`.
unfoldable pub resynchronize : DisplayParser → ParseUpdate → Step
resynchronize p u =
    if length p.pending == 0
    then waiting p u
    else drained 1 p (record u { discarded_bytes = u.discarded_bytes + 1 })

-- `SSD1306_INIT.starts_with(&self.pending) || …`, which ends the first arm.
unfoldable pub ssd1306_tail : DisplayParser → ParseUpdate → Step
ssd1306_tail p u =
    if starts_with ssd1306_init p.pending || starts_with (0x00 ∷ 0x21 ∷ []) p.pending
    then waiting p u
    else resynchronize p u

-- The rectangle test of the address command in the first seven bytes.
unfoldable pub valid_rectangle : Bytes → Bool
valid_rectangle pending =
    get_or pending 4 0 == 0x22
    && leb (get_or pending 2 0) (get_or pending 3 0)
    && ltb (get_or pending 3 0) display_width
    && leb (get_or pending 5 0) (get_or pending 6 0)
    && ltb (get_or pending 6 0) (display_height / 8)

-- The first arm behind its `consume_pattern`: the address command.
unfoldable pub scan_address : DisplayParser → ParseUpdate → Step
scan_address p u =
    if starts_with p.pending (0x00 ∷ 0x21 ∷ [])
    then if ltb (length p.pending) 7
      then waiting p u
      else if valid_rectangle p.pending
      then drained 7
          (record p {
            state = ParseState.ssd1306_data x (end_x - x + 1) page (end_page - page + 1);
          })
          u
      else ssd1306_tail p u
    else ssd1306_tail p u
  where
    x : ℕ
    x = get_or p.pending 2 0

    end_x : ℕ
    end_x = get_or p.pending 3 0

    page : ℕ
    page = get_or p.pending 5 0

    end_page : ℕ
    end_page = get_or p.pending 6 0

unfoldable pub scan_ssd1306 : DisplayParser → ParseUpdate → Step
scan_ssd1306 p u =
    if has_pattern p.pending ssd1306_init
    then drained (length ssd1306_init) p u
    else scan_address p u

-- The value of `range` in the second arm, or the early `return false` in its block.
pub data Range : Type 0 where
  incomplete invalid : Range
  columns : (command_size x width : ℕ) → Range

-- `end_column.zip(start_column).and_then(…)`
unfoldable pub hinted_range : Option ℕ → Option ℕ → Range
hinted_range (some end) (some start) =
    if leb 2 start && leb start end && ltb end (display_width + 2)
    then columns 6 (start - 2) (end - start + 1)
    else invalid
hinted_range _ _ = invalid

-- `end_column.filter(|&column| column == 2).map(…)`
unfoldable pub legacy_range : Option ℕ → Range
legacy_range (some column) = if column == 2 then columns 4 0 display_width else invalid
legacy_range none = invalid

unfoldable pub page_range : Bytes → Range
page_range pending =
    if get_or pending 4 0 == 0x40
    then legacy_range (decode_column (get_or pending 2 0) (get_or pending 3 0))
    else if ltb (length pending) 6
    then incomplete
    else hinted_range (decode_column (get_or pending 2 0) (get_or pending 3 0))
        (decode_column (get_or pending 4 0) (get_or pending 5 0))

-- `self.sh1106_last_page_command.is_some_and(|previous| page < previous)`
unfoldable pub page_falls : Option ℕ → ℕ → Bool
page_falls none page = false
page_falls (some previous) page = ltb page previous

abbrev pub is_some : Option ℕ → Bool
is_some none = false
is_some (some n) = true

-- The first `if` in the branch of a page command.
unfoldable pub ends_frame : DisplayParser → ℕ → Bool
ends_frame p page =
    leb 4 (length p.pending)
    && is_some (decode_column (get_or p.pending 2 0) (get_or p.pending 3 0))
    && page_falls p.sh1106_last_page_command page

-- `SH1106_INIT.starts_with(&self.pending) || …`, which ends the second arm.
unfoldable pub sh1106_tail : DisplayParser → ParseUpdate → Step
sh1106_tail p u =
    if starts_with sh1106_init p.pending || starts_with sh1106_display_on p.pending
    then waiting p u
    else resynchronize p u

-- `if let Some((command_size, x, width)) = range`
unfoldable pub begin_page : Range → ℕ → DisplayParser → ParseUpdate → Step
begin_page incomplete page p u = waiting p u
begin_page invalid page p u = sh1106_tail p u
begin_page (columns command_size x width) page p u =
    drained command_size
      (record p {
        sh1106_pages = if page == 0 then 0 else p.sh1106_pages;
        sh1106_frame_started = if page == 0 then true else p.sh1106_frame_started;
        sh1106_last_page_command = some page;
        state = ParseState.sh1106_page_data page x width;
      })
      u

unfoldable pub page_command : ℕ → DisplayParser → ParseUpdate → Step
page_command page p u =
    if ends_frame p page
    then record {
      progressed = false;
      parser = record p {
        sh1106_pages = 0;
        sh1106_frame_started = false;
        sh1106_last_page_command = none;
      };
      update = record u { partial_frame_boundary = true };
    }
    else if ltb (length p.pending) 5
    then waiting p u
    else begin_page (page_range p.pending) page p u

-- The second arm behind its `consume_pattern`s: the page command.
unfoldable pub scan_page : DisplayParser → ParseUpdate → Step
scan_page p u =
    if starts_with p.pending (0x00 ∷ [])
    then if ltb (length p.pending) 2
      then waiting p u
      else if within 0xb0 0xb7 (get_or p.pending 1 0)
      then page_command (bit_and (get_or p.pending 1 0) 7) p u
      else sh1106_tail p u
    else sh1106_tail p u

unfoldable pub scan_sh1106 : DisplayParser → ParseUpdate → Step
scan_sh1106 p u =
    if has_pattern p.pending sh1106_init
    then drained (length sh1106_init) p u
    else if has_pattern p.pending sh1106_display_on
    then drained (length sh1106_display_on) p u
    else scan_page p u

unfoldable pub scan_as : DisplayController → DisplayParser → ParseUpdate → Step
scan_as DisplayController.ssd1306 p u = scan_ssd1306 p u
scan_as DisplayController.sh1106 p u = scan_sh1106 p u

unfoldable pub scan : DisplayParser → ParseUpdate → Step
scan p u = scan_as p.controller p u
