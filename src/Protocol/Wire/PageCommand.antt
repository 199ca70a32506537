-- ===== src/Protocol/Wire/PageCommand.antt =====
-- src/display_protocol.rs: the parser reads an SH1106 page command as its driver means it.
use raspberry_pi_i2c_target.Prelude.{
  ℕ, ◌+◌, ◌*◌, ◌≤◌, ◌<◌, bit_and, bit_or, Bool, true, false, ◌≡◌, refl, ◌∙◌, arith, [], ◌∷◌, Bytes,
  length, starts_with, some, ◌==◌, ==_iff, holds_below, holds_below_at, if◌then◌else◌,
}
use raspberry_pi_i2c_target.Protocol.State.{
  sh1106_init, sh1106_display_on, DisplayController, ParseUpdate, ParseState, DisplayParser,
}
use raspberry_pi_i2c_target.Protocol.Scan.{
  decode_column, has_pattern, hinted_range, legacy_range, page_range, page_falls, ends_frame,
  begin_page, page_command, scan_page, scan_sh1106, scan_as, scan, columns,
}
use raspberry_pi_i2c_target.Protocol.Scan.Extend.{has_pattern-eq, page_ne_init}
use raspberry_pi_i2c_target.Protocol.Wire.{page_message, columns_message, low_nibble, high_nibble}

-- `page_command & 7` gives the page back, for each of the eight.
page_table : holds_below 8 (λ k. bit_and (0xb0 + k) 7 == k) ≡ true
unfolding holds_below
page_table = refl

bit_and-page : (page : ℕ) → page < 8 → bit_and (0xb0 + page) 7 ≡ page
bit_and-page page h =
    (==_iff _ page).0 (holds_below_at 8 (λ k. bit_and (0xb0 + k) 7 == k) page page_table h)

abbrev decodes : ℕ → Bool
decodes c = bit_or (bit_and (high_nibble c) 0x0f * 16) (low_nibble c) == c

column_table : holds_below 256 decodes ≡ true
unfolding holds_below
column_table = refl

-- A column command is decoded to the column that it was made for.
pub decode_column-nibbles :
    (c : ℕ) → c < 256 → decode_column (low_nibble c) (high_nibble c) ≡ some c
unfolding decode_column
decode_column-nibbles c h =
    let e = (==_iff _ c).0 (holds_below_at 256 decodes c column_table h) in ground (arith, e)

-- A page, and the bytes of `width` of its columns.
pub record IsPagePart (page x width : ℕ) (pixels : Bytes) : Type 0 where
  pub page_fits : page < 8
  pub some_columns : 0 < width
  pub columns_fit : x + width ≤ 128
  pub filled : length pixels ≡ width

-- The last page command of this frame, if there was one, was for no higher page.
abbrev pub IsInOrder : DisplayParser → ℕ → Type 0
IsInOrder p page = page_falls p.sh1106_last_page_command page ≡ false

-- The parser behind the page command.
abbrev pub commanded : DisplayParser → ℕ → ℕ → ℕ → Bytes → DisplayParser
commanded p page x width pixels = record p {
  pending = 0x40 ∷ pixels;
  sh1106_pages = if page == 0 then 0 else p.sh1106_pages;
  sh1106_frame_started = if page == 0 then true else p.sh1106_frame_started;
  sh1106_last_page_command = some page;
  state = ParseState.sh1106_page_data page x width;
}

no_pattern :
    (page : ℕ) (rest : Bytes)
    → page < 8
    → (has_pattern (0x00 ∷ (0xb0 + page) ∷ rest) sh1106_init ≡ false)
      × (has_pattern (0x00 ∷ (0xb0 + page) ∷ rest) sh1106_display_on ≡ false)
no_pattern page rest h =
    let bytes = 0x00 ∷ (0xb0 + page) ∷ rest in
    let ne = page_ne_init bytes (ground arith) in
    (has_pattern-eq bytes sh1106_init ∙ ne.0, has_pattern-eq bytes sh1106_display_on ∙ ne.1)

first_zero : (xs : Bytes) → starts_with (0x00 ∷ xs) (0x00 ∷ []) ≡ true
unfolding starts_with
first_zero xs = ground arith

-- A page command is taken for one, whatever follows it.
pub scan-page_command :
    (q : DisplayParser) (u : ParseUpdate) (page : ℕ) (rest : Bytes)
    → page < 8
    → q.controller ≡ DisplayController.sh1106
    → q.pending ≡ 0x00 ∷ (0xb0 + page) ∷ rest
    → scan q u ≡ page_command page q u
unfolding scan scan_as scan_sh1106 scan_page
scan-page_command q u page rest h c e =
    ground
      (arith, no_pattern page rest h, first_zero ((0xb0 + page) ∷ rest), bit_and-page page h, c, e)

pub page_command-begin_page :
    (q : DisplayParser) (u : ParseUpdate) (page : ℕ)
    → IsInOrder q page
    → 5 ≤ length q.pending
    → page_command page q u ≡ begin_page (page_range q.pending) page q u
unfolding page_command ends_frame
page_command-begin_page q u page order h = ground arith

low_nibble_ne_marker : (c : ℕ) → (low_nibble c == 0x40) ≡ false
low_nibble_ne_marker c = ground arith

pub page_range-columns_message :
    (page x width : ℕ) (pixels : Bytes)
    → 0 < width
    → x + width ≤ 128
    → page_range (columns_message page x width pixels) ≡ columns 6 x width
unfolding page_range hinted_range
page_range-columns_message page x width pixels h k =
    rw
      (
        low_nibble_ne_marker (x + 2),
        decode_column-nibbles (x + width + 1) (omega arith),
        decode_column-nibbles (x + 2) (omega arith),
      )
      (ground arith)

pub page_range-page_message :
    (page : ℕ) (pixels : Bytes) → page_range (page_message page pixels) ≡ columns 4 0 128
unfolding page_range legacy_range decode_column
page_range-page_message page pixels = refl
