-- ===== src/Protocol/Invariant.antt =====
-- src/display_protocol.rs: what holds of a `DisplayParser` between two calls.
use raspberry_pi_i2c_target.Prelude.{
  ℕ, ◌+◌, ◌*◌, ◌≤◌, ◌<◌, true, false, ◌≡◌, arith, length, length-replicate,
}
use raspberry_pi_i2c_target.Protocol.State.{
  framebuffer_size, DisplayController, ParseUpdate, ParseState, DisplayParser, Step, new,
}
use raspberry_pi_i2c_target.Protocol.Push.{presents}

-- A data state names a region of the display, and belongs to the parser's controller.
abbrev pub Fits : DisplayController → ParseState → Type 0
Fits c ParseState.scan = Unit
Fits DisplayController.ssd1306 (ParseState.ssd1306_data x width page pages) =
    (0 < width) × (x + width ≤ 128) × (0 < pages) × (page + pages ≤ 8)
Fits DisplayController.sh1106 (ParseState.ssd1306_data x width page pages) = ⊥
Fits DisplayController.ssd1306 (ParseState.sh1106_page_data page x width) = ⊥
Fits DisplayController.sh1106 (ParseState.sh1106_page_data page x width) =
    (page < 8) × (0 < width) × (x + width ≤ 128)

pub record IsWellFormed (p : DisplayParser) : Type 0 where
  pub size : length p.framebuffer ≡ 1024
  pub fits : Fits p.controller p.state
  pub pages_byte : p.sh1106_pages < 256

abbrev pub state_weight : ParseState → ℕ
state_weight ParseState.scan = 0
state_weight (ParseState.ssd1306_data x width page pages) = 1
state_weight (ParseState.sh1106_page_data page x width) = 1

-- What every round of the loop lowers.
abbrev pub weight : DisplayParser → ℕ
weight p = 2 * length p.pending + state_weight p.state

-- One round from `p` and `u` to `s`: the invariant is kept, no byte is counted twice, and a round
-- that goes on lowers the weight. One that does not leaves the bytes.
pub record Advances (p : DisplayParser) (u : ParseUpdate) (s : Step) : Type 0 where
  pub well_formed : IsWellFormed s.parser
  pub same_controller : s.parser.controller ≡ p.controller
  pub accounted :
      s.update.discarded_bytes + length s.parser.pending ≤ u.discarded_bytes + length p.pending
  pub falls : s.progressed ≡ true → weight s.parser < weight p
  pub stays : s.progressed ≡ false → s.parser.pending ≡ p.pending
  pub idles : s.progressed ≡ false → presents s.update ≡ false → (s.parser ≡ p) × (s.update ≡ u)

pub new-IsWellFormed : (c : DisplayController) → IsWellFormed (new c)
unfolding new
new-IsWellFormed c = record {
  size = length-replicate {A = ℕ} framebuffer_size 0;
  fits = tt;
  pages_byte = omega arith;
}
