-- ===== src/Protocol/Wire/Sh1106.antt =====
-- src/display_protocol.rs: the parser reads SH1106 pages as their driver means them.
use raspberry_pi_i2c_target.Prelude.{
  ℕ, zero, suc, ◌+◌, ◌-◌, ◌*◌, ◌^◌, ◌<◌, bit_or, Bool, true, false, not, ◌&&◌, inl, inr, ◌≡◌, refl,
  ap, ◌∙◌, arith, ◌++◌, [], ◌∷◌, Bytes, ok, length, take, get_or, splice, get_or-splice, none, some,
  ltb, leb, ◌==◌, if◌then◌else◌, take_all, Bool-cases, length-append,
}
use raspberry_pi_i2c_target.Protocol.State.{
  DisplayController, no_update, ParseState, DisplayParser, Step,
}
use raspberry_pi_i2c_target.Protocol.Scan.{waiting, Range, begin_page, scan}
use raspberry_pi_i2c_target.Protocol.Data.{finish_page}
use raspberry_pi_i2c_target.Protocol.Data.Advance.{
  IsComplete, page_read, page_read-Advances, read_sh1106_page_data_complete,
}
use raspberry_pi_i2c_target.Protocol.Push.{step, presents, Pushed, push_loop, receive, push}
use raspberry_pi_i2c_target.Protocol.Wire.{page_message, columns_message}
use raspberry_pi_i2c_target.Protocol.Wire.Rounds.{
  push_loop_go, push_loop_stop, push_fuel, step-scan, step_sh1106, drop-eq-nil, scan-nil,
}
use raspberry_pi_i2c_target.Protocol.Wire.Ssd1306.{IsIdle}
use raspberry_pi_i2c_target.Protocol.Invariant.{IsWellFormed}
use raspberry_pi_i2c_target.Protocol.Wire.PageCommand.{
  IsPagePart, IsInOrder, commanded, scan-page_command, page_command-begin_page,
  page_range-columns_message, page_range-page_message,
}

module _ (p : DisplayParser) (page x width : ℕ) (pixels : Bytes)
    (idle : IsIdle DisplayController.sh1106 p) (r : IsPagePart page x width pixels)
    (order : IsInOrder p page) where
  abbrev started : Step
  started = record {
    progressed = true;
    parser = commanded p page x width pixels;
    update = no_update;
  }

  -- The command with its columns, and the short one for a whole page.
  scan-columns_message : scan (receive p (columns_message page x width pixels)) no_update ≡ started
  unfolding begin_page
  scan-columns_message = rw idle.nothing_pending (
      scan-page_command (record p { pending = columns_message page x width pixels }) no_update page
        _ r.page_fits idle.controller refl
      ∙ page_command-begin_page (record p { pending = columns_message page x width pixels })
          no_update page order (omega arith)
      ∙ ap
          (λ (t : Range).
            begin_page t page (record p { pending = columns_message page x width pixels })
              no_update)
          (page_range-columns_message page x width pixels r.some_columns r.columns_fit))

  scan-page_message :
      x ≡ 0 → width ≡ 128 → scan (receive p (page_message page pixels)) no_update ≡ started
  unfolding begin_page
  scan-page_message ex ew =
      let q = record p { pending = page_message page pixels } in
      rw (idle.nothing_pending, ex, ew)
        (scan-page_command q no_update page _ r.page_fits idle.controller refl
          ∙ page_command-begin_page q no_update page order (omega arith)
          ∙ ap (λ (t : Range). begin_page t page q no_update) (page_range-page_message page pixels))

  commanded-IsWellFormed : IsWellFormed (commanded p page x width pixels)
  commanded-IsWellFormed = record {
    size = idle.well_formed.size;
    fits = rw idle.controller (omega arith);
    pages_byte = ground (arith, idle.well_formed.pages_byte);
  }

  page-IsComplete : IsComplete (0x40 ∷ pixels) (width + 1)
  page-IsComplete = record { marker = refl; enough = omega arith }

  abbrev finished : Step
  finished =
      page_read (commanded p page x width pixels) no_update commanded-IsWellFormed page x width
        idle.controller refl

  step-commanded : step (commanded p page x width pixels) no_update ≡ ok finished
  step-commanded =
      step_sh1106 (commanded p page x width pixels) no_update page x width refl
      ∙ read_sh1106_page_data_complete (commanded p page x width pixels) no_update
          commanded-IsWellFormed page x width idle.controller refl page-IsComplete

  finished_facts :
      (finished.progressed ≡ true)
      × (finished.parser.pending ≡ [])
      × (finished.parser.state ≡ ParseState.scan)
      × (presents finished.update ≡ (page == 7))
  unfolding finish_page
  finished_facts = ground (arith, drop-eq-nil (width + 1) (0x40 ∷ pixels) (omega arith))

  finished_waits :
      (fuel : ℕ)
      → 0 < fuel
      → push_loop fuel finished.parser finished.update
        ≡ ok (record { parser = finished.parser; update = finished.update })
  finished_waits zero h = absurd (omega arith)
  finished_waits (suc fuel) h =
      let f = finished_facts in
      push_loop_stop fuel finished.parser finished.update (waiting finished.parser finished.update)
        (step-scan finished.parser finished.update f.2
          ∙ ap ok (scan-nil finished.parser finished.update f.1))
        (inr refl)

  -- The data round ends the call on page 7; on another page the next round waits.
  push_finished :
      (input : Bytes)
      → 0 < length (p.pending ++ input)
      → scan (receive p input) no_update ≡ started
      → push p input ≡ ok (record { parser = finished.parser; update = finished.update })
  push_finished input long e =
      let fuel = 2 * length (p.pending ++ input) in
      let q = commanded p page x width pixels in
      push_fuel p input
      ∙ push_loop_go (suc fuel) (receive p input) no_update started
          (step-scan (receive p input) no_update idle.scanning ∙ ap ok e) refl refl
      ∙ elim (Bool-cases (page == 7)) [
        | inl last ↦
            push_loop_stop fuel q no_update finished step-commanded (inl (finished_facts.3 ∙ last))
        | inr more ↦
            push_loop_go fuel q no_update finished step-commanded finished_facts.0
              (finished_facts.3 ∙ more)
            ∙ finished_waits fuel (omega arith)
      ]

  abbrev pub whole : Bool
  whole = x == 0 && width == 128

  -- The page bits behind the message, before page 7 clears them.
  abbrev pub bits : ℕ
  bits =
      let before = if page == 0 then 0 else p.sh1106_pages in
      if whole then bit_or before (2 ^ page) else before

  -- Whether a frame that began with page 0 has all of its pages.
  abbrev pub complete : Bool
  complete = (if page == 0 then true else p.sh1106_frame_started) && bits == 0xff

  -- What the message leaves: nothing pending, nothing discarded and one display update; its bytes in
  -- its columns of its page, all others as they were; and on page 7 the end of a frame, which counts
  -- if it is complete.
  pub record DrawsPage (out : Pushed) : Type 0 where
    pub idle_again : IsIdle DisplayController.sh1106 out.parser
    pub counted : out.update ≡ record {
      completed_frames = if page == 7 && complete then 1 else 0;
      partial_frame_boundary = page == 7 && not complete;
      discarded_bytes = 0;
      display_updates = 1;
    }
    pub pages : out.parser.sh1106_pages ≡ (if page == 7 then 0 else bits)
    pub frame_started :
        out.parser.sh1106_frame_started
        ≡ (if page == 7 then false else if page == 0 then true else p.sh1106_frame_started)
    pub last_page : out.parser.sh1106_last_page_command ≡ (if page == 7 then none else some page)
    pub pixels_drawn :
        (i : ℕ)
        → get_or out.parser.framebuffer i 0 ≡ (
            if leb (page * 128 + x) i && ltb i (page * 128 + x + width)
            then get_or pixels (i - (page * 128 + x)) 0
            else get_or p.framebuffer i 0)

  row_pixels : take width pixels ≡ pixels
  row_pixels = rw (← r.filled) (take_all pixels)

  finished_framebuffer : finished.parser.framebuffer ≡ splice p.framebuffer (page * 128 + x) pixels
  unfolding finish_page
  finished_framebuffer = ground (arith, ap (splice p.framebuffer (page * 128 + x)) row_pixels)

  finished_controller : finished.parser.controller ≡ p.controller
  unfolding finish_page
  finished_controller = ground arith

  page_read-IsWellFormed : IsWellFormed finished.parser
  page_read-IsWellFormed =
      (page_read-Advances (commanded p page x width pixels) no_update commanded-IsWellFormed page x
        width idle.controller refl page-IsComplete).well_formed

  finished-DrawsPage : DrawsPage (record { parser = finished.parser; update = finished.update })
  unfolding finish_page
  finished-DrawsPage = record {
    idle_again = record {
      well_formed = page_read-IsWellFormed;
      controller = finished_controller ∙ idle.controller;
      scanning = finished_facts.2;
      nothing_pending = finished_facts.1;
    };
    counted = ground arith;
    pages = ground arith;
    frame_started = ground arith;
    last_page = ground arith;
    pixels_drawn = λ i.
        ap (λ (b : Bytes). get_or b i 0) finished_framebuffer
        ∙ get_or-splice p.framebuffer (page * 128 + x) pixels i 0 (omega arith)
        ∙ ground arith;
  }

  -- An idle SH1106 parser that receives the command with its columns for a part of a page, no lower
  -- than the last page, and its bytes, draws them: they stand in their columns and all other bytes as
  -- before, one display update is counted and nothing discarded, and page 7 ends a frame, which is
  -- complete just when it began with page 0 and has all of its pages.
  pub push-columns_message :
      (out : Pushed) × (push p (columns_message page x width pixels) ≡ ok out) × DrawsPage out
  push-columns_message =
      let long : 0 < length (p.pending ++ columns_message page x width pixels) =
        omega (arith, length-append p.pending (columns_message page x width pixels)) in
      (
        _,
        push_finished (columns_message page x width pixels) long scan-columns_message,
        finished-DrawsPage,
      )

  -- The same holds of the short command for a whole visible page.
  pub push-page_message :
      x ≡ 0
      → width ≡ 128
      → (out : Pushed) × (push p (page_message page pixels) ≡ ok out) × DrawsPage out
  push-page_message ex ew =
      let long : 0 < length (p.pending ++ page_message page pixels) =
        omega (arith, length-append p.pending (page_message page pixels)) in
      (
        _,
        push_finished (page_message page pixels) long (scan-page_message ex ew),
        finished-DrawsPage,
      )
