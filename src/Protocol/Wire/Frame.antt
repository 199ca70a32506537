-- ===== src/Protocol/Wire/Frame.antt =====
-- src/display_protocol.rs: the eight pages of an SH1106 frame, one message after the other.
use raspberry_pi_i2c_target.Prelude.{
  ℕ, zero, suc, ◌+◌, ◌-◌, ◌*◌, ◌^◌, ◌<◌, ◌≤◌, bit_or, Bool, true, false, ◌≡◌, refl, sym, ◌⊎◌, inl,
  ap, ◌∙◌, arith, [], ◌∷◌, List, Bytes, ok, length, get_or, some, ◌==◌, ==_iff, holds_below,
  holds_below_at, if◌then◌else◌,
}
use raspberry_pi_i2c_target.Protocol.State.{DisplayController, DisplayParser}
use raspberry_pi_i2c_target.Protocol.Scan.{page_falls}
use raspberry_pi_i2c_target.Protocol.Push.{Pushed, push}
use raspberry_pi_i2c_target.Protocol.Push.Add.{add}
use raspberry_pi_i2c_target.Protocol.Push.Feed.{feed, feed-one, feed-cons}
use raspberry_pi_i2c_target.Protocol.Wire.{page_message}
use raspberry_pi_i2c_target.Protocol.Wire.Ssd1306.{IsIdle}
use raspberry_pi_i2c_target.Protocol.Wire.PageCommand.{IsPagePart, IsInOrder}
use raspberry_pi_i2c_target.Protocol.Wire.Sh1106.{DrawsPage, bits, complete, push-page_message}

-- The messages of consecutive pages, from page `k`.
abbrev pub page_messages : ℕ → List Bytes → List Bytes
page_messages k [] = []
page_messages k (pixels ∷ pages) = page_message k pixels ∷ page_messages (k + 1) pages

-- Every page has all of its columns.
abbrev pub AllWhole : List Bytes → Type 0
AllWhole [] = Unit
AllWhole (pixels ∷ pages) = (length pixels ≡ 128) × AllWhole pages

-- The pages below `k` have been written in this frame.
pub record HasPages (k : ℕ) (p : DisplayParser) : Type 0 where
  pub idle : IsIdle DisplayController.sh1106 p
  pub order : IsInOrder p k
  pub started : 0 < k → p.sh1106_frame_started ≡ true
  pub marked : 0 < k → p.sh1106_pages ≡ 2 ^ k - 1

abbrev next_bits : ℕ → Bool
next_bits k = bit_or (2 ^ k - 1) (2 ^ k) == 2 ^ (k + 1) - 1

bits_table : holds_below 8 next_bits ≡ true
unfolding holds_below
bits_table = refl

bits_next : (k : ℕ) → k < 8 → bit_or (2 ^ k - 1) (2 ^ k) ≡ 2 ^ (k + 1) - 1
bits_next k h = (==_iff _ _).0 (holds_below_at 8 next_bits k bits_table h)

-- What the pages from `k` on leave: a complete frame, an update for each page, and their bytes.
pub record DrawsPages (k : ℕ) (pages : List Bytes) (p : DisplayParser) (out : Pushed) : Type 0 where
  pub idle_again : IsIdle DisplayController.sh1106 out.parser
  pub counted : out.update ≡ record {
    completed_frames = 1;
    partial_frame_boundary = false;
    discarded_bytes = 0;
    display_updates = length pages;
  }
  pub below : (i : ℕ) → i < k * 128 → get_or out.parser.framebuffer i 0 ≡ get_or p.framebuffer i 0
  pub drawn :
      (j c : ℕ)
      → j < length pages
      → c < 128
      → get_or out.parser.framebuffer ((k + j) * 128 + c) 0 ≡ get_or (get_or pages j []) c 0

before_mark :
    (k marks : ℕ) → (0 < k → marks ≡ 2 ^ k - 1) → (if k == 0 then 0 else marks) ≡ 2 ^ k - 1
before_mark zero marks h = refl
before_mark (suc k) marks h = ground (arith, h)

no_fall : (k : ℕ) → page_falls (some k) (k + 1) ≡ false
unfolding page_falls
no_fall k = ground arith

module _ (k : ℕ) (p : DisplayParser) (pixels : Bytes) (h : HasPages k p)
    (size : length pixels ≡ 128) (fits : k < 8) where
  part : IsPagePart k 0 128 pixels
  part = record {
    page_fits = fits;
    some_columns = omega arith;
    columns_fit = omega arith;
    filled = size;
  }

  one :
      (out : Pushed) × (push p (page_message k pixels) ≡ ok out)
      × DrawsPage p k 0 128 pixels h.idle part h.order out
  one = push-page_message p k 0 128 pixels h.idle part h.order refl refl

  bits_are : bits p k 0 128 pixels h.idle part h.order ≡ 2 ^ (k + 1) - 1
  bits_are = rw (before_mark k p.sh1106_pages h.marked) (bits_next k fits)

  next-HasPages : k < 7 → HasPages (k + 1) one.0.parser
  next-HasPages more =
      let d = one.2 in
      record {
        idle = d.idle_again;
        order = rw (d.last_page, seven more) (no_fall k);
        started = λ _. rw (d.frame_started, seven more) (ground (arith, h.started));
        marked = λ _. rw (d.pages, seven more) bits_are;
      }
    where
      seven : k < 7 → (k == 7) ≡ false
      seven m = ground arith

  seven_bits : k ≡ 7 → 2 ^ (k + 1) - 1 ≡ 255
  seven_bits e = rw e

  complete_here : k ≡ 7 → complete p k 0 128 pixels h.idle part h.order ≡ true
  complete_here e = ground (arith, bits_are, seven_bits e, h.started)

  -- Pixel `c` of row `k + j` within a message for row `k`.
  one_pixel :
      (j c : ℕ)
      → j ≡ 0
      → c < 128
      → get_or one.0.parser.framebuffer ((k + j) * 128 + c) 0 ≡ get_or pixels c 0
  one_pixel j c e m =
      let at : (k + j) * 128 + c - (k * 128 + 0) ≡ c = omega arith in
      one.2.pixels_drawn ((k + j) * 128 + c) ∙ ground (arith, ap (λ i. get_or pixels i 0) at)

  one_keeps :
      (i : ℕ)
      → (i < k * 128) ⊎ (k * 128 + 128 ≤ i)
      → get_or one.0.parser.framebuffer i 0 ≡ get_or p.framebuffer i 0
  one_keeps i l = one.2.pixels_drawn i ∙ ground arith

  -- The last page ends the frame.
  last_page : k ≡ 7 → DrawsPages k (pixels ∷ []) p one.0
  last_page e = record {
    idle_again = one.2.idle_again;
    counted = one.2.counted ∙ ground (arith, complete_here e);
    below = λ i l. one_keeps i (inl l);
    drawn = λ j c l m.
        let e : j ≡ 0 = omega arith in
        one_pixel j c e m ∙ ap (λ t. get_or (get_or (pixels ∷ []) t []) c 0) (sym e);
  }

  -- A page before the last, with those behind it.
  more_pages :
      (pages : List Bytes) (out : Pushed)
      → k < 7
      → DrawsPages (k + 1) pages one.0.parser out
      → DrawsPages k (pixels ∷ pages) p (record out { update = add one.0.update out.update })
  more_pages pages out more d = record {
    idle_again = d.idle_again;
    counted = rw (one.2.counted, d.counted) (ground arith);
    below = λ i l. d.below i (omega arith) ∙ one_keeps i (inl l);
    drawn = drawn_at;
  }
    where
      drawn_at :
          (j c : ℕ)
          → j < length (pixels ∷ pages)
          → c < 128
          → get_or out.parser.framebuffer ((k + j) * 128 + c) 0
            ≡ get_or (get_or (pixels ∷ pages) j []) c 0
      drawn_at zero c l m = d.below _ (omega arith) ∙ one_pixel zero c refl m
      drawn_at (suc j) c l m =
          let at : (k + suc j) * 128 + c ≡ (k + 1 + j) * 128 + c = omega arith in
          rw at (d.drawn j c (omega arith) m)

-- On from page `k`.
send_pages :
    (pages : List Bytes) (k : ℕ) (p : DisplayParser)
    → 0 < length pages
    → k + length pages ≡ 8
    → AllWhole pages
    → HasPages k p
    → (out : Pushed) × (feed p (page_messages k pages) ≡ ok out) × DrawsPages k pages p out
send_pages [] k p pos e w h = absurd (omega arith)
send_pages (pixels ∷ []) k p pos e w h =
    let (out, sent, _) = one k p pixels h w.0 (omega arith) in
    (
      out,
      feed-one p (page_message k pixels) out sent,
      last_page k p pixels h w.0 (omega arith) (omega arith),
    )
send_pages (pixels ∷ next ∷ pages) k p pos e w h =
    let fits : k < 8 = omega arith in
    let (out, sent, _) = one k p pixels h w.0 fits in
    let (out', sent', d) =
      send_pages (next ∷ pages) (k + 1) out.parser (omega arith) (omega arith) w.1
        (next-HasPages k p pixels h w.0 fits (omega arith)) in
    (
      record out' { update = add out.update out'.update },
      feed-cons p (page_message k pixels) (page_messages (k + 1) (next ∷ pages)) out out' sent
          sent',
      more_pages k p pixels h w.0 fits (next ∷ pages) out' (omega arith) d,
    )

-- An idle SH1106 parser that can begin a frame (page 0 is in order for it) and receives the eight
-- whole pages of a display in order, one message each, counts exactly one complete frame, discards
-- nothing and holds every byte of them.
pub feed-page_messages :
    (pages : List Bytes) (p : DisplayParser)
    → length pages ≡ 8
    → AllWhole pages
    → IsIdle DisplayController.sh1106 p
    → IsInOrder p 0
    → (out : Pushed) × (feed p (page_messages 0 pages) ≡ ok out) × DrawsPages 0 pages p out
feed-page_messages pages p n w idle order =
    send_pages pages 0 p (omega arith) (omega arith) w (record {
      idle = idle;
      order = order;
      started = λ l. absurd (omega arith);
      marked = λ l. absurd (omega arith);
    })
