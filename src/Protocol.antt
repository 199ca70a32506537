-- ===== src/Protocol.antt =====
-- src/display_protocol.rs: the SSD1306 and SH1106 stream parser.
pub mod State
pub mod Scan
pub mod Data
pub mod Push
pub mod Invariant
pub mod Wire
