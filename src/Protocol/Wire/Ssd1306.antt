-- ===== src/Protocol/Wire/Ssd1306.antt =====
-- src/display_protocol.rs: the parser reads an SSD1306 rectangle as its driver means it.
use raspberry_pi_i2c_target.Prelude.{
  ℕ, suc, ◌+◌, ◌*◌, ◌≤◌, ◌<◌, Bool, true, false, not, inl, ◌≡◌, refl, ap, ◌∙◌, arith, [], ◌∷◌,
  Bytes, ok, length, get_or, starts_with, if◌then◌else◌,
}
use raspberry_pi_i2c_target.Protocol.State.{
  DisplayController, no_update, ParseState, DisplayParser, Step,
}
use raspberry_pi_i2c_target.Protocol.Scan.{
  has_pattern, valid_rectangle, scan_address, scan_ssd1306, scan_as, scan,
}
use raspberry_pi_i2c_target.Protocol.Data.{is_full_frame, finish_rectangle}
use raspberry_pi_i2c_target.Protocol.Data.Copy.{in_region}
use raspberry_pi_i2c_target.Protocol.Data.Advance.{
  IsComplete, ssd1306_copies, read_ssd1306_data_complete,
}
use raspberry_pi_i2c_target.Protocol.Push.{step, Pushed, receive, push}
use raspberry_pi_i2c_target.Protocol.Wire.{rectangle_message}
use raspberry_pi_i2c_target.Protocol.Wire.Rounds.{
  push_loop_go, push_loop_stop, push_fuel, step-scan, step_ssd1306, drop-eq-nil,
}
use raspberry_pi_i2c_target.Protocol.Invariant.{IsWellFormed}

-- A rectangle of the display and one byte for each of its columns and pages.
pub record IsRectangle (x width page pages : ℕ) (pixels : Bytes) : Type 0 where
  pub some_columns : 0 < width
  pub columns_fit : x + width ≤ 128
  pub some_pages : 0 < pages
  pub pages_fit : page + pages ≤ 8
  pub filled : length pixels ≡ width * pages

-- The parser waits for a message.
pub record IsIdle (c : DisplayController) (p : DisplayParser) : Type 0 where
  pub well_formed : IsWellFormed p
  pub controller : p.controller ≡ c
  pub scanning : p.state ≡ ParseState.scan
  pub nothing_pending : p.pending ≡ []

behind_marker : (m c : ℕ) → 1 + m + c ≡ suc (m + c)
behind_marker m c = omega arith

no_offset : (page : ℕ) → page + 0 ≡ page
no_offset page = omega arith

module _ (p : DisplayParser) (x width page pages : ℕ) (pixels : Bytes)
    (idle : IsIdle DisplayController.ssd1306 p) (r : IsRectangle x width page pages pixels) where
  abbrev message : Bytes
  message = rectangle_message x width page pages pixels

  -- The parser behind the address command.
  abbrev addressed : DisplayParser
  addressed = record p {
    pending = 0x40 ∷ pixels;
    state = ParseState.ssd1306_data x width page pages;
  }

  scan_message :
      scan (receive p message) no_update
      ≡ record { progressed = true; parser = addressed; update = no_update }
  unfolding scan scan_as scan_ssd1306 scan_address has_pattern valid_rectangle starts_with
  scan_message = rw (idle.nothing_pending, idle.controller) (ground arith)

  addressed-IsWellFormed : IsWellFormed addressed
  addressed-IsWellFormed = record {
    size = idle.well_formed.size;
    fits = rw idle.controller (omega arith);
    pages_byte = idle.well_formed.pages_byte;
  }

  message-IsComplete : IsComplete (0x40 ∷ pixels) (width * pages + 1)
  message-IsComplete = record { marker = refl; enough = omega arith }

  -- The framebuffer behind the message.
  abbrev drawn : Bytes
  drawn =
      (ssd1306_copies addressed no_update addressed-IsWellFormed x width page pages idle.controller
        refl message-IsComplete).out

  abbrev finished : Step
  finished = finish_rectangle x width page pages (width * pages + 1) drawn addressed no_update

  abbrev full : Bool
  full = is_full_frame x width page pages

  -- What the message leaves: nothing pending, nothing discarded, one display update, a frame if it
  -- covers the display and a partial boundary if not; the pixels of the rectangle in row order,
  -- and all others as they were.
  pub record Draws (out : Pushed) : Type 0 where
    pub idle_again : IsIdle DisplayController.ssd1306 out.parser
    pub counted : out.update ≡ record {
      completed_frames = if full then 1 else 0;
      partial_frame_boundary = not full;
      discarded_bytes = 0;
      display_updates = 1;
    }
    pub inside :
        (o c : ℕ)
        → o < pages
        → c < width
        → get_or out.parser.framebuffer ((page + o) * 128 + (x + c)) 0
          ≡ get_or pixels (o * width + c) 0
    pub outside :
        (i : ℕ)
        → in_region x width page pages i ≡ false
        → get_or out.parser.framebuffer i 0 ≡ get_or p.framebuffer i 0

  step-addressed : step addressed no_update ≡ ok finished
  step-addressed =
      step_ssd1306 addressed no_update x width page pages refl
      ∙ read_ssd1306_data_complete addressed no_update addressed-IsWellFormed x width page pages
          idle.controller refl message-IsComplete

  push_message : push p message ≡ ok (record { parser = finished.parser; update = finished.update })
  unfolding finish_rectangle
  push_message =
      push_fuel p message
      ∙ push_loop_go _ (receive p message) no_update
          (record { progressed = true; parser = addressed; update = no_update })
          (step-scan (receive p message) no_update idle.scanning ∙ ap ok scan_message) refl refl
      ∙ push_loop_stop _ addressed no_update finished step-addressed (inl (ground arith))

  finished-Draws : Draws (record { parser = finished.parser; update = finished.update })
  unfolding finish_rectangle
  finished-Draws =
      let copies =
        ssd1306_copies addressed no_update addressed-IsWellFormed x width page pages idle.controller
          refl message-IsComplete in
      record {
        idle_again = record {
          well_formed = record {
            size = copies.size;
            fits = tt;
            pages_byte = idle.well_formed.pages_byte;
          };
          controller = idle.controller;
          scanning = refl;
          nothing_pending = drop-eq-nil (width * pages + 1) (0x40 ∷ pixels) (omega arith);
        };
        counted = ground arith;
        inside = λ o c ho hc.
            copies.inside o c (omega arith) (omega arith) hc
            ∙ ap (λ i. get_or (0x40 ∷ pixels) i 0) (behind_marker (o * width) c);
        outside = λ i h. copies.outside i (rw (no_offset page) h);
      }

  pub push-rectangle_message : (out : Pushed) × (push p message ≡ ok out) × Draws out
  push-rectangle_message = (_, push_message, finished-Draws)
