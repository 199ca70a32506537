-- ===== src/Direct/Serve/Released.antt =====
-- src/bin/target.rs: what `main` leaves of the hardware's state.
use raspberry_pi_i2c_target.Prelude.{
  ℕ, ◌<◌, ◌≡◌, ◌≢◌, ◌⊎◌, refl, ◌∙◌, arith, ◌==◌, ◌||◌, ltb, List, [], length, Bool-cases, inl, inr,
  if◌then◌else◌, Outcome, ok, err, panic, out_of_fuel, Error, ◌>!◌, ◌>?◌, map_error,
}
use raspberry_pi_i2c_target.Text.{String, contains_text}
use raspberry_pi_i2c_target.CommandLine.{first}
use raspberry_pi_i2c_target.Direct.Hardware.{Hardware, pi_3, pi_4, from_model, parse_address}
use raspberry_pi_i2c_target.Direct.Machine.{Page, Machine, Peripheral, Registers}
use raspberry_pi_i2c_target.Direct.Target.{
  HardwareTarget, configure, shutdown, open_target, or_unmap, drop_target,
}
use raspberry_pi_i2c_target.Direct.Target.Functions.{function_of, IsReleased}
use raspberry_pi_i2c_target.Direct.Target.Configure.{
  configure-listens, shutdown-functions, shutdown-IsReleased,
}
use raspberry_pi_i2c_target.Direct.Serve.Pins.{serve_loop-pins}
use raspberry_pi_i2c_target.Direct.Serve.{serve_loop, finish, main}

abbrev IsBoard : Hardware → Type 0
IsBoard h = (h ≡ pi_3) ⊎ (h ≡ pi_4)

from_model-IsBoard :
    (debug_model : String → String) (model : String) {h : Hardware}
    → from_model debug_model model ≡ ok h
    → IsBoard h
unfolding from_model
from_model-IsBoard debug_model model e =
    elim (Bool-cases (contains_text model "Raspberry Pi 3 Model B")) [
      | inl three ↦ inl (cc (rw three at e))
      | inr other ↦ elim (Bool-cases (contains_text model "Raspberry Pi 4 Model B")) [
        | inl four ↦ inr (cc (rw (other, four) at e))
        | inr unknown ↦ cc (rw (other, unknown) at e)
      ]
    ]

-- The hardware is as it was, where the program fails before it configures the target; or the target
-- of a supported board is off and its pins are inputs, and every other pin has the function it had.
abbrev pub Restores : (before after : Peripheral) → Type 0
Restores before after =
    (after ≡ before)
    ⊎ ((h : Hardware) × IsBoard h
        × IsReleased h after
        × ((pin : ℕ)
            → pin < 54
            → function_of after pin
              ≡ (if pin == h.target_sda || pin == h.target_scl then 0 else function_of before pin)))

module _ (m : Machine) (r : Registers m) (before : Peripheral) where
  -- The target is open on a supported board, and no pin but its own has another function.
  abbrev IsOpen : HardwareTarget → m.World → Type 0
  IsOpen t w =
      IsBoard t.hardware
      × ((pin : ℕ)
          → pin < 54
          → function_of (r.peripheral w) pin ≡ (
              if pin == t.hardware.target_sda || pin == t.hardware.target_scl
              then 7
              else function_of before pin))

  -- A run of `open` gives such a target, or leaves the hardware as it was.
  abbrev Opens : Outcome HardwareTarget × m.World → Type 0
  Opens (ok t, w) = IsOpen t w
  Opens (err error, w) = r.peripheral w ≡ before
  Opens (panic, w) = r.peripheral w ≡ before
  Opens (out_of_fuel, w) = r.peripheral w ≡ before

  >?-Opens :
      {A : Type 0} (run : Outcome A × m.World)
      (next : A → m.World → Outcome HardwareTarget × m.World)
      → r.peripheral run.1 ≡ before
      → ((a : A) (w : m.World) → run.0 ≡ ok a → r.peripheral w ≡ before → Opens (next a w))
      → Opens (run >? next)
  >?-Opens (ok a, w) next e h = h a w refl e
  >?-Opens (err error, w) next e h = e
  >?-Opens (panic, w) next e h = e
  >?-Opens (out_of_fuel, w) next e h = e

  board_pins : (h : Hardware) → IsBoard h → (h.target_sda < 32) × (h.target_scl < 32)
  board_pins h (inl e) = rw e (omega arith)
  board_pins h (inr e) = rw e (omega arith)

  drop_target-peripheral :
      (t : HardwareTarget) (w : m.World)
      → r.peripheral (drop_target m t w) ≡ r.peripheral (shutdown m t w)
  unfolding drop_target
  drop_target-peripheral t w = simp r.unmap_keeps

  drop_target-Restores :
      (t : HardwareTarget) (w : m.World)
      → IsOpen t w
      → Restores before (r.peripheral (drop_target m t w))
  drop_target-Restores t w (board, functions) = rw (drop_target-peripheral t w) (
      inr (
        t.hardware,
        board,
        shutdown-IsReleased m r t w,
        λ pin less. ground (arith, shutdown-functions m r t w pin, functions pin less),
      ))

  finish-Restores :
      (t : HardwareTarget) (served : Outcome {0} Unit) (w : m.World)
      → IsOpen t w
      → (finish m t served w).0 ≢ out_of_fuel
      → Restores before (r.peripheral (finish m t served w).1)
  finish-Restores t (ok a) w o ends = drop_target-Restores t w o
  finish-Restores t (err error) w o ends = drop_target-Restores t w o
  finish-Restores t panic w o ends = drop_target-Restores t w o
  finish-Restores t out_of_fuel w o ends = absurd (ends refl)

  -- `serve_loop` does not touch the pins.
  serve-Restores :
      (t : HardwareTarget) (rounds fuel : ℕ) (w : m.World)
      → IsOpen t w
      → (serve_loop m t rounds fuel [] w >! λ served w. finish m t served w).0 ≢ out_of_fuel
      → Restores before
          (r.peripheral (serve_loop m t rounds fuel [] w >! λ served w. finish m t served w).1)
  serve-Restores t rounds fuel w (board, functions) ends =
      let (served, w1) = serve_loop m t rounds fuel [] w in
      finish-Restores t served w1 (board, rw (serve_loop-pins m r t rounds fuel [] w) functions)
        ends

  opened-Restores :
      (f : Error → Error) (rounds fuel : ℕ) (run : Outcome HardwareTarget × m.World)
      → Opens run
      → (map_error f run >? λ t w.
          serve_loop m t rounds fuel [] w >! λ served w. finish m t served w).0
        ≢ out_of_fuel
      → Restores before (
          r.peripheral
            (map_error f run >? λ t w.
              serve_loop m t rounds fuel [] w >! λ served w. finish m t served w).1)
  opened-Restores f rounds fuel (ok t, w) o ends = serve-Restores t rounds fuel w o ends
  opened-Restores f rounds fuel (err error, w) o ends = inl o
  opened-Restores f rounds fuel (panic, w) o ends = inl o
  opened-Restores f rounds fuel (out_of_fuel, w) o ends = inl o

  configure-IsOpen :
      (t : HardwareTarget) (w : m.World)
      → IsBoard t.hardware
      → r.peripheral w ≡ before
      → IsOpen t (configure m t w)
  configure-IsOpen t w board e =
      let (sda, scl) = board_pins t.hardware board in
      let (_, _, _, functions, _) = configure-listens m r t w sda scl in
      (board, λ pin less. functions pin less ∙ rw e refl)

  or_unmap-peripheral :
      (run : Outcome {0} Unit × m.World) → r.peripheral (or_unmap m run).1 ≡ r.peripheral run.1
  or_unmap-peripheral (ok a, w) = refl
  or_unmap-peripheral (err error, w) = r.unmap_keeps Page.gpio w
  or_unmap-peripheral (panic, w) = refl
  or_unmap-peripheral (out_of_fuel, w) = refl

  open_target-Opens :
      (address : ℕ) (w : m.World) → r.peripheral w ≡ before → Opens (open_target m address w)
  unfolding open_target
  open_target-Opens address w e = >?-Opens (m.read_model w) _ (r.model_keeps w ∙ e) λ model w _ e.
      >?-Opens (from_model m.debug_model model, w) _ e
        λ hardware w known e.
          let board = from_model-IsBoard m.debug_model model known in
          >?-Opens (m.open_memory w) _ (r.memory_keeps w ∙ e) λ _ w _ e.
            >?-Opens (m.map_page Page.gpio hardware.gpio_physical w) _
              (r.map_keeps Page.gpio hardware.gpio_physical w ∙ e)
              λ _ w _ e.
                let bsc_map = m.map_page Page.bsc hardware.bsc_target_physical w in
                >?-Opens (or_unmap m bsc_map) _
                  (or_unmap-peripheral bsc_map
                    ∙ r.map_keeps Page.bsc hardware.bsc_target_physical w
                    ∙ e)
                  λ _ w _ e.
                    let t : HardwareTarget = record { address = address; hardware = hardware } in
                    configure-IsOpen t w board e

  parsed-Restores :
      (f : Error → Error) (rounds fuel : ℕ) (parsed : Outcome ℕ) (w : m.World)
      → r.peripheral w ≡ before
      → ((parsed, w) >? λ address w. map_error f (open_target m address w) >? λ t w.
          serve_loop m t rounds fuel [] w >! λ served w. finish m t served w).0
        ≢ out_of_fuel
      → Restores before (
          r.peripheral
            ((parsed, w) >? λ address w. map_error f (open_target m address w) >? λ t w.
              serve_loop m t rounds fuel [] w >! λ served w. finish m t served w).1)
  parsed-Restores f rounds fuel (ok address) w e ends =
      opened-Restores f rounds fuel (open_target m address w) (open_target-Opens address w e) ends
  parsed-Restores f rounds fuel (err error) w e ends = inl e
  parsed-Restores f rounds fuel panic w e ends = inl e
  parsed-Restores f rounds fuel out_of_fuel w e ends = inl e

-- However a run of `main` ends, with success or with an error: the hardware is as it was, where the
-- program fails before it configures the target; or the board is a supported one, its target is
-- disabled and has no address, its two pins are inputs, and every other pin has the function that it
-- had before.
pub main-Restores :
    (m : Machine) (r : Registers m) (rounds fuel : ℕ) (arguments : List String) (w : m.World)
    → (main m rounds fuel arguments w).0 ≢ out_of_fuel
    → Restores (r.peripheral w) (r.peripheral (main m rounds fuel arguments w).1)
unfolding main
main-Restores m r rounds fuel arguments w ends = elim (Bool-cases (ltb 1 (length arguments))) [
  | inl many ↦ rw many (inl refl)
  | inr few ↦ rw few (
      parsed-Restores m r (r.peripheral w) _ rounds fuel (parse_address (first arguments)) w refl
        (rw few at ends))
]
