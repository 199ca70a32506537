-- ===== src/VirtualDisplay.antt =====
-- src/bin/virtual-display.rs
pub mod Options
pub mod Platform
pub mod Runtime
pub mod Serve
