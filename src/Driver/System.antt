-- ===== src/Driver/System.antt =====
-- What src/kernel_target.rs calls outside the program: the file system, the clock, and the
-- commands `dtoverlay`, `insmod` and `rmmod`. Nothing is assumed of them here.
use raspberry_pi_i2c_target.Prelude.{ℕ, Bool, List, Call}
use raspberry_pi_i2c_target.Text.{String}

-- `Output`: whether the status was a success, the status as it is printed, and what was written.
pub record Output : Type 0 where
  pub success : Bool
  pub status : String
  pub stdout : String
  pub stderr : String

pub record System : Type 1 where
  pub World : Type 0
  -- `Command::new(program).args(arguments).output()`
  pub execute : String → List String → Call World Output
  -- `path.exists()`
  pub exists : String → World → Bool × World
  -- `path.is_file()`
  pub is_file : String → World → Bool × World
  -- `path.metadata()?.modified()?`
  pub modified : String → Call World ℕ
  -- `fs::read(path)?`, read as text
  pub read_text : String → Call World String
  -- `Instant::now()`, in milliseconds
  pub now : World → ℕ × World
  -- `thread::sleep` of so many milliseconds
  pub sleep : ℕ → World → World
  pub geteuid : World → ℕ × World
  -- `fs::canonicalize(path)`
  pub canonicalize : String → Call World String
  pub current_exe : Call World String
  -- `path.is_dir()`
  pub is_dir : String → World → Bool × World
  -- `path.ancestors()`
  pub ancestors : String → List String
  -- `text.trim()`, and `{:?}` of a text without its trailing zeros: both for messages only
  pub trim : String → String
  pub debug_model : String → String
