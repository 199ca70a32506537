-- ===== src/Protocol/Scan/Append.antt =====
-- src/display_protocol.rs: bytes that arrive behind the first ones do not change what `scan` does
-- with those, once it does anything.
use raspberry_pi_i2c_target.Prelude.{false, ◌≡◌, Bytes}
use raspberry_pi_i2c_target.Protocol.State.{DisplayController, ParseUpdate, DisplayParser}
use raspberry_pi_i2c_target.Protocol.Scan.{scan_as, scan}
use raspberry_pi_i2c_target.Protocol.Push.{presents, receive}
use raspberry_pi_i2c_target.Protocol.Scan.Extend.{extend, Moves}
use raspberry_pi_i2c_target.Protocol.Scan.AppendSsd1306.{scan_ssd1306-append}
use raspberry_pi_i2c_target.Protocol.Scan.AppendSh1106.{scan_sh1106-append}

module _ (p : DisplayParser) (u : ParseUpdate) (more : Bytes) (quiet : presents u ≡ false) where
  scan_as-append :
      (c : DisplayController)
      → Moves (scan_as c p u)
      → scan_as c (receive p more) u ≡ extend more (scan_as c p u)
  unfolding scan_as
  scan_as-append DisplayController.ssd1306 m = scan_ssd1306-append p u more quiet m
  scan_as-append DisplayController.sh1106 m = scan_sh1106-append p u more quiet m

  pub scan-append : Moves (scan p u) → scan (receive p more) u ≡ extend more (scan p u)
  unfolding scan
  scan-append m = scan_as-append p.controller m
