-- ===== src/Responder.antt =====
-- src/bin/target-driver.rs: the diagnostic responder on the target driver.
pub mod Options
pub mod Device
pub mod Serve
