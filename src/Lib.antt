-- ===== src/Lib.antt =====
-- The I2C target for Raspberry Pi: the virtual display and the life of its kernel driver.
--
-- The repository has a Linux driver (kernel/) that turns a Pi into an I2C target, and Rust programs
-- that use it. `virtual-display` (src/bin/virtual-display.rs) reads the records of the driver's
-- device, gives the bytes to a parser of the SSD1306 and SH1106 display protocols
-- (src/display_protocol.rs), renders its framebuffer in a window (src/sdl_display.rs) and drives two
-- GPIO lines from the mouse (src/gpio_buttons.rs). It loads the driver when it starts and removes it
-- when it ends (src/kernel_target.rs).
--
-- Which module models what:
--
-- - Prelude: Boolean tests, lists over the native numbers, byte slices with Rust's panics (Slices),
--   outcomes (Effects: a value, an `io::Error`, a panic, or the end of the fuel of a loop), and calls
--   that change the world outside (World). Text: what the programs use of Rust's `str`.
-- - Protocol: src/display_protocol.rs. State has the constants and `DisplayParser`; Scan has `scan`,
--   `consume_pattern` and `decode_column`; Data has `read_ssd1306_data` and `read_sh1106_page_data`;
--   Push has `push`. A method returns the new parser with its update. Wire is an account of what a
--   display driver sends, independent of the parser. Invariant says which parsers are well formed.
-- - Driver: src/kernel_target.rs. System is what it calls outside: commands, files, the clock.
--   Settings has the numbers and `IdlePull`; Commands the checks; Guard `DriverGuard`; Existing
--   `unload_existing`. Kernel and Clock say what the theorems rely on in the commands and the clock,
--   and Kernel/Runs what the commands leave in the kernel.
--   Guard/Presence and Guard/Loads are about `DriverGuard::load`, and Finish about the end of both `main`s.
-- - Buttons: `ButtonState` of src/sdl_display.rs, and in Outputs `GpioButtonOutputs` of
--   src/gpio_buttons.rs over `Chip`, the calls of a GPIO chip.
-- - Window: src/sdl_display.rs. The pixels that `SdlDisplay::render` writes; in Input `poll_input` over
--   `Sdl`, and in Display `new`, `render` and `drop` over `Video`, the calls of SDL. The models of the
--   viewer call these of Platform.
-- - VirtualDisplay: src/bin/virtual-display.rs. Platform is what it calls outside: the device, the
--   window, the GPIO chip, the flag that a signal clears. Options has `Options::parse`, Runtime
--   `DisplayRuntime`, Serve `serve` and `main`.
-- - CommandLine: what the two option parsers share. Responder: src/bin/target-driver.rs, a program that
--   answers each request with an acknowledgement; Device is what it calls outside.
-- - Controller: src/bin/controller.rs, and Long src/bin/controller-long.rs, the programs on the other
--   end of the bus; `Bus` is what they call outside.
-- - Direct: src/bin/target.rs, the target without a kernel driver. Hardware has the boards and
--   `parse_address`; Machine is what the program calls outside, two pages of registers among it, and
--   `Registers` says what the hardware keeps of what is written; Target has `HardwareTarget`, Serve
--   `main`.
-- - Tests: a sample of the interfaces, of which all their hypotheses hold, and the theorems at
--   concrete inputs.
--
-- Numbers. A `u8` is a number below 256, and where the code depends on that an invariant says so. The
-- totals of `DisplayRuntime` and `serve` wrap at 2 ^ 64; the counters of one `push` grow by at most
-- one for each byte of the input. Instants are numbers of milliseconds.
--
-- Loops. `push_loop` has fuel `2 * length pending + 2`: every round drops a byte, or leaves a data
-- state. `push_rounds` has fuel `4 * length pending + 4`. `wait_for_device` has fuel 102: a second in
-- steps of ten milliseconds. `remove_overlays` takes its fuel as an argument, as does `serve_loop`
-- its number of rounds: the first needs more than the number of active overlays, and the second runs
-- until the flag is cleared. `queue_loop` needs a round for each of the 2500 naps of five seconds and
-- one for each interruption. `drain_events` needs one round more than events are waiting. In Direct the
-- fuel of the polls is an argument, and needs more than the number of polls that what is polled for
-- takes.
--
-- Not modelled: what the programs print; what SDL does with its calls; the volatile access to
-- the registers; that files are closed; the stubs for other systems than Linux; command lines that are not UTF-8, at which `env::args`
-- panics; the C code of kernel/.
pub mod Prelude
pub mod Protocol
pub mod Text
pub mod Driver
pub mod CommandLine
pub mod Buttons
pub mod Controller
pub mod Direct
pub mod Window
pub mod VirtualDisplay
pub mod Responder
pub mod Tests
