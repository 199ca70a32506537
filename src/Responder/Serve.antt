-- ===== src/Responder/Serve.antt =====
-- src/bin/target-driver.rs: `queue_response`, `serve` and `main`. What is printed is not modelled; the
-- clock is read where the source reads it.
pub mod Answers
pub mod Response
pub mod Queue
pub mod Across
pub mod Ends
pub mod Clean
use raspberry_pi_i2c_target.Prelude.{
  ℕ, zero, suc, ◌+◌, ◌-◌, ◌==◌, Bool, true, false, not, ◌&&◌, ◌||◌, Option, none, some, List, [],
  ◌∷◌, ◌++◌, leb, length, take, if◌then◌else◌, min, add_u64, Outcome, ok, err, panic, out_of_fuel,
  ErrorKind, Error, Bytes, ◌>?◌, ◌>!◌,
}
use raspberry_pi_i2c_target.Text.{String, ◌<>◌, decimal, equals}
use raspberry_pi_i2c_target.CommandLine.{is_given}
use raspberry_pi_i2c_target.Driver.Settings.{max_transfer, parse_address}
use raspberry_pi_i2c_target.Driver.Commands.{fails, require_root, infer_kernel_directory}
use raspberry_pi_i2c_target.Driver.Guard.{DriverGuard, load}
use raspberry_pi_i2c_target.Driver.Existing.{unload_existing}
use raspberry_pi_i2c_target.Driver.Finish.{finish_application}
use raspberry_pi_i2c_target.Responder.Options.{Options, parse, default_address}
use raspberry_pi_i2c_target.Responder.Device.{Device}

-- `PREFIX`, the bytes of `ACK: `
abbrev pub ack_prefix : Bytes
ack_prefix = b'A' ∷ b'C' ∷ b'K' ∷ b':' ∷ b' ' ∷ []

-- The lines of `serve` that build the response to a request.
unfoldable pub response : Bytes → Bytes
response request =
    ack_prefix ++ take (min (length request) (max_transfer - length ack_prefix)) request

pub record Totals : Type 0 where
  pub received_transactions : ℕ
  pub received_bytes : ℕ
  pub next_report : ℕ

module _ (d : Device) where
  -- The arms `Ok(length)` of the `match`.
  abbrev pub written : Bytes → ℕ → Outcome {0} Unit
  written reply n =
      if n == length reply
      then ok tt
      else fails ErrorKind.write_zero ("target accepted only " <> decimal n <> " response bytes")

  abbrev no_slot : Outcome {0} Unit
  no_slot =
      fails ErrorKind.timed_out
        "response slot or I2C bus did not become available within five seconds"

  -- The arms `Err(error)`; `again` is the next round of the loop.
  unfoldable pub write_failed :
      (deadline : ℕ)
      → (d.system.World → Outcome {0} Unit × d.system.World)
      → ErrorKind
      → Error
      → d.system.World
      → Outcome {0} Unit × d.system.World
  write_failed deadline again ErrorKind.would_block error w = d.system.now w >! λ now w.
      if leb deadline now then (no_slot, w) else again (d.system.sleep 2 w)
  write_failed deadline again ErrorKind.interrupted error w = again w
  write_failed deadline again _ error w = (err error, w)

  unfoldable pub after_write :
      (deadline : ℕ)
      → Bytes
      → (d.system.World → Outcome {0} Unit × d.system.World)
      → Outcome ℕ
      → d.system.World
      → Outcome {0} Unit × d.system.World
  after_write deadline reply again (ok n) w = (written reply n, w)
  after_write deadline reply again (err error) w = write_failed deadline again error.kind error w
  after_write deadline reply again panic w = (panic, w)
  after_write deadline reply again out_of_fuel w = (out_of_fuel, w)

  -- The `loop` of `queue_response`, on fuel.
  unfoldable pub queue_loop :
      (fuel : ℕ) (deadline : ℕ) → Bytes → d.system.World → Outcome {0} Unit × d.system.World
  queue_loop zero deadline reply w = (out_of_fuel, w)
  queue_loop (suc fuel) deadline reply w =
      after_write deadline reply (queue_loop fuel deadline reply) (d.write reply w).0
        (d.write reply w).1

  unfoldable pub queue_response :
      (fuel : ℕ) → Bytes → d.system.World → Outcome {0} Unit × d.system.World
  queue_response fuel reply w = d.system.now w >! λ now w. queue_loop fuel (now + 5000) reply w

  -- The report of the branch `receive_only`.
  abbrev pub report : Totals → d.system.World → Outcome Totals × d.system.World
  report v w = d.system.now w >! λ now w.
      if v.received_transactions == 1
      then (ok v, w)
      else if leb v.next_report now
      then (ok (record v { next_report = now + 1000 }), w)
      else (ok v, w)

  abbrev pub count_request : Totals → Bytes → Totals
  count_request v request = record v {
    received_transactions = add_u64 v.received_transactions 1;
    received_bytes = add_u64 v.received_bytes (length request);
  }

  -- The lines behind the `match` of the loop's body.
  unfoldable pub handle_request :
      (fuel : ℕ) (receive_only : Bool)
      → Bytes
      → Totals
      → d.system.World
      → Outcome Totals × d.system.World
  handle_request fuel true request v w = report (count_request v request) w
  handle_request fuel false request v w =
      queue_response fuel (response request) w >? λ _ w. (ok v, w)

  unfoldable pub read_failed :
      ErrorKind → Error → Totals → d.system.World → Outcome Totals × d.system.World
  read_failed ErrorKind.would_block error v w = (ok v, d.system.sleep 2 w)
  read_failed ErrorKind.interrupted error v w = (ok v, w)
  read_failed _ error v w = (err error, w)

  -- The body of the loop, of what `read` gives.
  unfoldable pub handle_read :
      (fuel : ℕ) (receive_only : Bool)
      → Outcome Bytes
      → Totals
      → d.system.World
      → Outcome Totals × d.system.World
  handle_read fuel receive_only (ok request) v w = handle_request fuel receive_only request v w
  handle_read fuel receive_only (err error) v w = read_failed error.kind error v w
  handle_read fuel receive_only panic v w = (panic, w)
  handle_read fuel receive_only out_of_fuel v w = (out_of_fuel, w)

  -- The loop of `serve`, for at most `rounds` rounds.
  unfoldable pub serve_loop :
      (rounds : ℕ) (fuel : ℕ) (receive_only : Bool)
      → Totals
      → d.system.World
      → Outcome Totals × d.system.World
  serve_loop zero fuel receive_only v w = (out_of_fuel, w)
  serve_loop (suc rounds) fuel receive_only v w = d.is_running w >! λ running w.
      if running
      then (handle_read fuel receive_only (d.read w).0 v (d.read w).1 >? λ v w.
          serve_loop rounds fuel receive_only v w)
      else (ok v, w)

  unfoldable pub serve :
      (rounds : ℕ) (fuel : ℕ) (receive_only : Bool)
      → d.system.World
      → Outcome Totals × d.system.World
  serve rounds fuel receive_only w = d.open_target (not receive_only) w >? λ _ w.
      d.system.now w >! λ now w.
      serve_loop rounds fuel receive_only
        (record { received_transactions = 0; received_bytes = 0; next_report = now + 1000 }) w

  -- The lines of `main` behind the test of `options.unload`.
  unfoldable pub respond :
      (rounds : ℕ) (fuel : ℕ) → Options → d.system.World → Outcome {0} Unit × d.system.World
  respond rounds fuel options w =
      if not options.receive_only && not (is_given options.ready_gpio)
      then (fails ErrorKind.invalid_input "response mode requires --ready-gpio", w)
      else (parse_address options.address default_address, w) >? λ address w.
          infer_kernel_directory d.system options.kernel_directory w >? λ kernel_directory w.
          load d.system kernel_directory address options.idle_pull options.ready_gpio w
          >? λ guard w. serve rounds fuel options.receive_only w >! λ served w.
              finish_application d.system "target failed: " served guard w

  -- `argument == "--help" || argument == "-h"` of any argument
  unfoldable pub asks_help : List String → Bool
  asks_help [] = false
  asks_help (argument ∷ rest) = equals argument "--help" || equals argument "-h" || asks_help rest

  -- `main`, of the arguments behind the program's name; `overlays` bounds the overlays to remove.
  unfoldable pub main :
      (overlays : ℕ) (rounds : ℕ) (fuel : ℕ)
      → List String
      → d.system.World
      → Outcome {0} Unit × d.system.World
  main overlays rounds fuel arguments w =
      if asks_help arguments
      then (ok tt, w)
      else (parse arguments, w) >? λ options w. require_root d.system w >? λ _ w.
          if options.unload
          then (unload_existing d.system overlays w >? λ _ w. (ok tt, w))
          else respond rounds fuel options w
