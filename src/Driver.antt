-- ===== src/Driver.antt =====
-- src/kernel_target.rs: the life of the kernel driver that an application loads.
pub mod Settings
pub mod System
pub mod Commands
pub mod Kernel
pub mod Guard
pub mod Existing
pub mod Finish
pub mod Clock
