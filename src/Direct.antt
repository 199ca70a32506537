-- ===== src/Direct.antt =====
-- src/bin/target.rs: the target without a kernel driver, which maps the peripheral's registers.
pub mod Hardware
pub mod Machine
pub mod Target
pub mod Serve
