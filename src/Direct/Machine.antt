-- ===== src/Direct/Machine.antt =====
-- What src/bin/target.rs calls outside the program: two pages of memory-mapped registers, the clock
-- and the flag that the signals clear.
use raspberry_pi_i2c_target.Prelude.{
  ℕ, ◌%◌, Bool, ◌≡◌, List, [], ◌∷◌, ◌++◌, Call, ◌==◌, bit_at, if◌then◌else◌,
}
use raspberry_pi_i2c_target.Text.{String}

-- The fields `gpio` and `bsc` of `HardwareTarget`.
pub data Page : Type 0 where
  gpio bsc : Page

pub record Machine : Type 1 where
  pub World : Type 0
  -- `/proc/device-tree/model`, decoded by `String::from_utf8_lossy`
  pub read_model : Call World String
  pub debug_model : String → String
  -- `OpenOptions` for `/dev/mem`
  pub open_memory : Call World Unit
  -- `mmap` of the page at a physical address
  pub map_page : Page → ℕ → Call World Unit
  pub unmap_page : Page → World → World
  pub read_register : Page → ℕ → World → ℕ × World
  pub write_register : Page → ℕ → ℕ → World → World
  -- `thread::sleep` of so many microseconds
  pub sleep : ℕ → World → World
  -- `RUNNING.take_byte`
  pub is_running : World → Bool × World

-- The parts of the hardware that a write reaches: the registers of the GPIO block, the control and
-- the address of the BSC target, and the bytes that went into its transmit FIFO: all of them, and
-- those since its control or its address was last written. And the bytes that were taken from its
-- receive FIFO, and the pulls of the pins as the older board keeps them.
pub record Peripheral : Type 0 where
  pub pins : ℕ → ℕ
  pub control : ℕ
  pub slave : ℕ
  pub sent : List ℕ
  pub queued : List ℕ
  pub taken : List ℕ
  pub pulls : ℕ → ℕ

abbrev pub update : (ℕ → ℕ) → ℕ → ℕ → ℕ → ℕ
update f register value other = if register == other then value else f other

-- On the older board a write to register 38 (GPPUDCLK0) clocks what register 37 (GPPUD) holds into the
-- pins whose bits are set.
abbrev pub clocked : (register value control : ℕ) → (ℕ → ℕ) → ℕ → ℕ
clocked register value control pulls pin =
    if register == 38 then (if bit_at value pin == 1 then control else pulls pin) else pulls pin

abbrev pub store : Page → ℕ → ℕ → Peripheral → Peripheral
store Page.gpio register value p = record p {
  pins = update p.pins register value;
  pulls = clocked register value (p.pins 37) p.pulls;
}
store Page.bsc register value p =
    if register == 0
    then record p { sent = p.sent ++ (value ∷ []); queued = p.queued ++ (value ∷ []) }
    else if register == 2
    then record p { slave = value; queued = [] }
    else if register == 3
    then record p { control = value; queued = [] }
    else p

-- A read of the data register takes a byte, the low eight bits of what is read.
abbrev pub take_byte : Page → ℕ → ℕ → Peripheral → Peripheral
take_byte Page.gpio register value p = p
take_byte Page.bsc register value p =
    if register == 0 then record p { taken = p.taken ++ (value % 256 ∷ []) } else p

-- The hardware keeps what is written and changes nothing of it by itself; a GPIO register is read as
-- it was written.
pub record Registers (m : Machine) : Type 0 where
  pub peripheral : m.World → Peripheral
  pub write_stores :
      (page : Page) (register value : ℕ) (w : m.World)
      → peripheral (m.write_register page register value w)
        ≡ store page register value (peripheral w)
  pub read_pins :
      (register : ℕ) (w : m.World)
      → (m.read_register Page.gpio register w).0 ≡ (peripheral w).pins register
  pub read_loads :
      (page : Page) (register : ℕ) (w : m.World)
      → peripheral (m.read_register page register w).1
        ≡ take_byte page register (m.read_register page register w).0 (peripheral w)
  pub sleep_keeps : (n : ℕ) (w : m.World) → peripheral (m.sleep n w) ≡ peripheral w
  pub running_keeps : (w : m.World) → peripheral (m.is_running w).1 ≡ peripheral w
  pub unmap_keeps : (page : Page) (w : m.World) → peripheral (m.unmap_page page w) ≡ peripheral w
  pub model_keeps : (w : m.World) → peripheral (m.read_model w).1 ≡ peripheral w
  pub memory_keeps : (w : m.World) → peripheral (m.open_memory w).1 ≡ peripheral w
  pub map_keeps :
      (page : Page) (address : ℕ) (w : m.World)
      → peripheral (m.map_page page address w).1 ≡ peripheral w
