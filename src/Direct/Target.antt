-- ===== src/Direct/Target.antt =====
-- src/bin/target.rs: `HardwareTarget`.
pub mod Fields
pub mod Functions
pub mod Configure
pub mod Send
pub mod Pins
use raspberry_pi_i2c_target.Prelude.{
  ℕ, zero, suc, ◌+◌, ◌*◌, ◌/◌, ◌%◌, ◌^◌, ◌==◌, ◌||◌, ltb, not, Bool, List, [], ◌∷◌, ◌++◌, length,
  bit_and, bit_or, not_u32, shl_u32, if◌then◌else◌, Outcome, ok, err, out_of_fuel, ErrorKind, Bytes,
  ◌>?◌, ◌>!◌,
}
use raspberry_pi_i2c_target.Text.{String}
use raspberry_pi_i2c_target.Driver.Settings.{invalid_input}
use raspberry_pi_i2c_target.Direct.Hardware.{Hardware, PullControl, from_model}
use raspberry_pi_i2c_target.Direct.Machine.{Page, Machine}

abbrev pub gppud : ℕ
gppud = 37

abbrev pub gppudclk0 : ℕ
gppudclk0 = 38

abbrev pub gpio_pup_pdn_cntrl_reg0 : ℕ
gpio_pup_pdn_cntrl_reg0 = 57

abbrev pub gpio_alt3 : ℕ
gpio_alt3 = 7

abbrev pub bsc_dr : ℕ
bsc_dr = 0

abbrev pub bsc_rsr : ℕ
bsc_rsr = 1

abbrev pub bsc_slv : ℕ
bsc_slv = 2

abbrev pub bsc_cr : ℕ
bsc_cr = 3

abbrev pub bsc_fr : ℕ
bsc_fr = 4

abbrev pub bsc_imsc : ℕ
bsc_imsc = 6

abbrev pub bsc_icr : ℕ
bsc_icr = 9

abbrev pub bsc_control : ℕ
bsc_control = bit_or (bit_or (bit_or (2 ^ 0) (2 ^ 2)) (2 ^ 8)) (2 ^ 9)

abbrev pub bsc_fr_tx_busy : ℕ
bsc_fr_tx_busy = 2 ^ 0

abbrev pub bsc_fr_rx_empty : ℕ
bsc_fr_rx_empty = 2 ^ 1

abbrev pub bsc_fr_tx_full : ℕ
bsc_fr_tx_full = 2 ^ 2

abbrev pub bsc_fr_rx_busy : ℕ
bsc_fr_rx_busy = 2 ^ 5

abbrev pub max_response : ℕ
max_response = 15

-- The fields behind the two pages.
pub record HardwareTarget : Type 0 where
  pub address : ℕ
  pub hardware : Hardware

-- One statement behind another.
infixl 5 ◌|>◌
abbrev pub ◌|>◌ : {W V : Type 0} → W → (W → V) → V
w |> f = f w

-- The value that `set_gpio_function` writes, of the one it has read.
unfoldable pub with_function : (old pin function : ℕ) → ℕ
with_function old pin function =
    let shift = pin % 10 * 3 in
    bit_or (bit_and old (not_u32 (shl_u32 7 shift))) (shl_u32 function shift)

-- The value that `set_bcm2711_pull_none` writes.
unfoldable pub without_pull : (old pin : ℕ) → ℕ
without_pull old pin = bit_and old (not_u32 (shl_u32 3 (pin % 16 * 2)))

module _ (m : Machine) where
  unfoldable pub set_gpio_function : (pin function : ℕ) → m.World → m.World
  set_gpio_function pin function w = m.read_register Page.gpio (pin / 10) w >! λ old w.
      m.write_register Page.gpio (pin / 10) (with_function old pin function) w

  unfoldable pub set_bcm2711_pull_none : (pin : ℕ) → m.World → m.World
  set_bcm2711_pull_none pin w =
      let register = gpio_pup_pdn_cntrl_reg0 + pin / 16 in
      m.read_register Page.gpio register w >! λ old w.
      m.write_register Page.gpio register (without_pull old pin) w

  abbrev pub disable_pulls : PullControl → Hardware → m.World → m.World
  disable_pulls PullControl.legacy h w =
      w
      |> m.write_register Page.gpio gppud 0
      |> m.sleep 5
      |> m.write_register Page.gpio gppudclk0
          (bit_or (shl_u32 1 h.target_sda) (shl_u32 1 h.target_scl))
      |> m.sleep 5
      |> m.write_register Page.gpio gppud 0
      |> m.write_register Page.gpio gppudclk0 0
  disable_pulls PullControl.bcm2711 h w =
      w |> set_bcm2711_pull_none h.target_sda |> set_bcm2711_pull_none h.target_scl

  unfoldable pub disable_internal_pulls : Hardware → m.World → m.World
  disable_internal_pulls h w = disable_pulls h.pull_control h w

  -- The writes that start the peripheral.
  abbrev start : ℕ → m.World → m.World
  start address w =
      w |> m.write_register Page.bsc bsc_slv address |> m.write_register Page.bsc bsc_cr bsc_control

  unfoldable pub configure : HardwareTarget → m.World → m.World
  configure t w =
      w
      |> m.write_register Page.bsc bsc_cr 0
      |> m.write_register Page.bsc bsc_rsr 0
      |> m.write_register Page.bsc bsc_slv 0
      |> m.write_register Page.bsc bsc_imsc 0x0f
      |> m.write_register Page.bsc bsc_icr 0x0f
      |> disable_internal_pulls t.hardware
      |> set_gpio_function t.hardware.target_sda gpio_alt3
      |> set_gpio_function t.hardware.target_scl gpio_alt3
      |> start t.address
      |> m.write_register Page.bsc bsc_rsr 0

  -- A page that is mapped is unmapped where the next one fails.
  abbrev pub or_unmap : Outcome {0} Unit × m.World → Outcome {0} Unit × m.World
  or_unmap (err error, w) = (err error, m.unmap_page Page.gpio w)
  or_unmap (r, w) = (r, w)

  -- `HardwareTarget::open`
  unfoldable pub open_target : ℕ → m.World → Outcome HardwareTarget × m.World
  open_target address w = m.read_model w >? λ model w.
      (from_model m.debug_model model, w) >? λ hardware w. m.open_memory w >? λ _ w.
      m.map_page Page.gpio hardware.gpio_physical w >? λ _ w.
      or_unmap (m.map_page Page.bsc hardware.bsc_target_physical w) >? λ _ w.
      let t : HardwareTarget = record { address = address; hardware = hardware } in
      (ok t, configure t w)

  -- The loop of `drain_received`, for fewer than `fuel` bytes.
  unfoldable pub drain_received : (fuel : ℕ) → Bytes → m.World → Outcome Bytes × m.World
  drain_received zero destination w = (out_of_fuel, w)
  drain_received (suc fuel) destination w = m.read_register Page.bsc bsc_fr w >! λ flags w.
      let rest = m.read_register Page.bsc bsc_dr w >! λ byte w.
      drain_received fuel (destination ++ (byte % 256 ∷ [])) w in
      if bit_and flags bsc_fr_rx_empty == 0 then rest else (ok destination, w)

  unfoldable pub receiving : m.World → Bool × m.World
  receiving w =
      m.read_register Page.bsc bsc_fr w >! λ flags w. (not (bit_and flags bsc_fr_rx_busy == 0), w)

  -- `while self.bsc.read(BSC_FR) & mask != 0 { thread::sleep(…) }`, for fewer than `fuel` naps.
  unfoldable pub wait_while : (mask fuel : ℕ) → m.World → Outcome {0} Unit × m.World
  wait_while mask zero w = (out_of_fuel, w)
  wait_while mask (suc fuel) w = m.read_register Page.bsc bsc_fr w >! λ flags w.
      let rest = wait_while mask fuel (m.sleep 20 w) in
      if bit_and flags mask == 0 then (ok tt, w) else rest

  -- The loop over `framed`.
  unfoldable pub send_bytes : (fuel : ℕ) → Bytes → m.World → Outcome {0} Unit × m.World
  send_bytes fuel [] w = (ok tt, w)
  send_bytes fuel (byte ∷ bytes) w = wait_while bsc_fr_tx_full fuel w >? λ _ w.
      send_bytes fuel bytes (m.write_register Page.bsc bsc_dr byte w)

  -- The writes of `queue_response` in front of the loop.
  abbrev restart : ℕ → m.World → m.World
  restart address w =
      w
      |> m.write_register Page.bsc bsc_cr 0
      |> m.write_register Page.bsc bsc_rsr 0
      |> start address

  unfoldable pub queue_response :
      (fuel : ℕ) → HardwareTarget → Bytes → m.World → Outcome {0} Unit × m.World
  queue_response fuel t response w =
      if length response == 0 || ltb max_response (length response)
      then (invalid_input "response length is outside the protocol limit", w)
      else wait_while (bit_or bsc_fr_tx_busy bsc_fr_rx_busy) fuel w >? λ _ w.
          send_bytes fuel (length response % 256 ∷ response) (restart t.address w)

  unfoldable pub shutdown : HardwareTarget → m.World → m.World
  shutdown t w =
      w
      |> m.write_register Page.bsc bsc_cr 0
      |> m.write_register Page.bsc bsc_rsr 0
      |> m.write_register Page.bsc bsc_slv 0
      |> set_gpio_function t.hardware.target_sda 0
      |> set_gpio_function t.hardware.target_scl 0

  -- `drop`: that of `HardwareTarget`, and those of its fields
  unfoldable pub drop_target : HardwareTarget → m.World → m.World
  drop_target t w = w |> shutdown t |> m.unmap_page Page.gpio |> m.unmap_page Page.bsc
