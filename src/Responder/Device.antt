-- ===== src/Responder/Device.antt =====
-- What src/bin/target-driver.rs calls outside the program: the device of the target driver, and the
-- flag that the signals clear.
use raspberry_pi_i2c_target.Prelude.{
  ℕ, Bool, ◌≡◌, List, [], ◌∷◌, ◌++◌, length, Outcome, ok, err, panic, out_of_fuel, Call, Bytes,
  ◌==◌, if◌then◌else◌,
}
use raspberry_pi_i2c_target.Driver.System.{System}

pub record Device : Type 1 where
  pub system : System
  -- `OpenOptions` for reading and, unless the program only receives, for writing
  pub open_target : Bool → Call system.World Unit
  -- `target.read(&mut request)`: the bytes that it fills
  pub read : Call system.World Bytes
  -- `target.write(response)`: how many bytes it has taken
  pub write : Bytes → Call system.World ℕ
  -- `RUNNING.load`
  pub is_running : system.World → Bool × system.World

-- The record that a read has given, at the end of those before it.
abbrev pub add_record : Outcome Bytes → List Bytes → List Bytes
add_record (ok record_bytes) records = records ++ (record_bytes ∷ [])
add_record (err e) records = records
add_record panic records = records
add_record out_of_fuel records = records

-- The response of a write that has taken all of it, at the end of those before it.
abbrev pub add_response : Bytes → Outcome ℕ → List Bytes → List Bytes
add_response response (ok n) responses =
    if n == length response then responses ++ (response ∷ []) else responses
add_response response (err e) responses = responses
add_response response panic responses = responses
add_response response out_of_fuel responses = responses

-- The records that the device has given and the responses that it has taken.
pub record Log (d : Device) : Type 0 where
  pub records : d.system.World → List Bytes
  pub responses : d.system.World → List Bytes
  pub read_records :
      (w : d.system.World) → records (d.read w).1 ≡ add_record (d.read w).0 (records w)
  pub write_responses :
      (b : Bytes) (w : d.system.World)
      → responses (d.write b w).1 ≡ add_response b (d.write b w).0 (responses w)
  -- All else leaves both.
  pub read_keeps : (w : d.system.World) → responses (d.read w).1 ≡ responses w
  pub write_keeps : (b : Bytes) (w : d.system.World) → records (d.write b w).1 ≡ records w
  pub now_keeps :
      (w : d.system.World)
      → (records (d.system.now w).1 ≡ records w) × (responses (d.system.now w).1 ≡ responses w)
  pub sleep_keeps :
      (n : ℕ) (w : d.system.World)
      → (records (d.system.sleep n w) ≡ records w) × (responses (d.system.sleep n w) ≡ responses w)
  pub running_keeps :
      (w : d.system.World)
      → (records (d.is_running w).1 ≡ records w) × (responses (d.is_running w).1 ≡ responses w)
