-- ===== src/Protocol/Push.antt =====
-- src/display_protocol.rs: `DisplayParser::push`.
pub mod Total
pub mod Add
pub mod Append
pub mod Feed
pub mod Changes
pub mod Descends
use raspberry_pi_i2c_target.Prelude.{
  ℕ, zero, suc, ◌+◌, ◌*◌, Bool, not, ◌||◌, ◌++◌, length, Bytes, ltb, if◌then◌else◌, Outcome, ok,
  out_of_fuel, ◌>>=◌,
}
use raspberry_pi_i2c_target.Protocol.State.{ParseUpdate, no_update, ParseState, DisplayParser, Step}
use raspberry_pi_i2c_target.Protocol.Scan.{scan}
use raspberry_pi_i2c_target.Protocol.Data.{read_ssd1306_data, read_sh1106_page_data}

-- The `match self.state` of the loop.
unfoldable pub step_in : ParseState → DisplayParser → ParseUpdate → Outcome Step
step_in ParseState.scan p u = ok (scan p u)
step_in (ParseState.ssd1306_data x width page pages) p u = read_ssd1306_data x width page pages p u
step_in (ParseState.sh1106_page_data page x width) p u = read_sh1106_page_data page x width p u

unfoldable pub step : DisplayParser → ParseUpdate → Outcome Step
step p u = step_in p.state p u

-- `update.completed_frames > 0 || update.partial_frame_boundary`
abbrev pub presents : ParseUpdate → Bool
presents u = ltb 0 u.completed_frames || u.partial_frame_boundary

pub record Pushed : Type 0 where
  pub parser : DisplayParser
  pub update : ParseUpdate

-- The loop of `push`, on fuel.
unfoldable pub push_loop : ℕ → DisplayParser → ParseUpdate → Outcome Pushed
push_loop zero p u = out_of_fuel
push_loop (suc fuel) p u = step p u >>= λ s.
    let rest = push_loop fuel s.parser s.update in
    if presents s.update
    then ok (record { parser = s.parser; update = s.update })
    else if not s.progressed
    then ok (record { parser = s.parser; update = s.update })
    else rest

-- Each round drops bytes, or leaves a data state and drops none.
abbrev pub fuel_for : Bytes → ℕ
fuel_for pending = 2 * length pending + 2

abbrev pub receive : DisplayParser → Bytes → DisplayParser
receive p input = record p { pending = p.pending ++ input }

unfoldable pub push : DisplayParser → Bytes → Outcome Pushed
push p input = push_loop (fuel_for (p.pending ++ input)) (receive p input) no_update
