-- ===== src/Responder/Options.antt =====
-- src/bin/target-driver.rs: `Options` and `Options::parse`.
pub mod Coherent
use raspberry_pi_i2c_target.Prelude.{
  ℕ, Bool, true, false, ◌&&◌, ◌||◌, Option, none, some, List, [], ◌∷◌, ◌++◌, length, ltb,
  if◌then◌else◌, Outcome, ok, ◌>>=◌,
}
use raspberry_pi_i2c_target.Text.{String, ◌<>◌, equals, strip_prefix, begins_with}
use raspberry_pi_i2c_target.CommandLine.{is_given, if_value, pulls, is_nonempty, first, second}
use raspberry_pi_i2c_target.Driver.Settings.{invalid_input, IdlePull, parse_idle_pull, parse_gpio}

abbrev pub default_address : ℕ
default_address = 0x13

abbrev pub usage : String
usage =
    "usage: target-driver [--receive-only] [--ready-gpio GPIO] [--idle-pull none|down|up] [address] [kernel-directory]\n       target-driver --unload"

pub record Options : Type 0 where
  pub unload : Bool
  pub receive_only : Bool
  pub address : Option String
  pub kernel_directory : Option String
  pub idle_pull : IdlePull
  pub ready_gpio : Option ℕ

-- An option whose value is the next argument.
pub data Awaited : Type 0 where
  nothing idle_pull ready_gpio : Awaited

-- The variables of `Options::parse`; `awaited` stands for the step of `index` inside a branch.
pub record Parsing : Type 0 where
  pub awaited : Awaited
  pub unload : Bool
  pub receive_only : Bool
  pub idle_pull : IdlePull
  pub ready_gpio : Option ℕ
  pub positionals : List String

abbrev pub initial : Parsing
initial = record {
  awaited = Awaited.nothing;
  unload = false;
  receive_only = false;
  idle_pull = IdlePull.no_pull;
  ready_gpio = none;
  positionals = [];
}

abbrev pub gpio_once : Parsing → Outcome Parsing
gpio_once o =
    if is_given o.ready_gpio then invalid_input "--ready-gpio may be specified only once" else ok o

unfoldable pub set_idle_pull : String → Parsing → Outcome Parsing
set_idle_pull value o = do
  pull ← parse_idle_pull value
  ok (record o { awaited = Awaited.nothing; idle_pull = pull })

unfoldable pub set_ready_gpio : String → Parsing → Outcome Parsing
set_ready_gpio value o = do
  gpio ← parse_gpio value
  ok (record o { awaited = Awaited.nothing; ready_gpio = some gpio })

-- The last two branches.
unfoldable pub accept_positional : String → Parsing → Outcome Parsing
accept_positional argument o =
    if begins_with argument b'-'
    then invalid_input ("unknown option " <> argument)
    else ok (record o { positionals = o.positionals ++ (argument ∷ []) })

-- The chain of `if`s from the first option to the last.
unfoldable pub accept_argument : String → Parsing → Outcome Parsing
accept_argument argument o =
    if equals argument "--unload"
    then ok (record o { unload = true })
    else if equals argument "--receive-only" || equals argument "--no-answer"
    then ok (record o { receive_only = true })
    else if equals argument "--idle-pull"
    then ok (record o { awaited = Awaited.idle_pull })
    else if_value (strip_prefix argument "--idle-pull=") (λ value. set_idle_pull value o)
        (if equals argument "--ready-gpio"
          then (gpio_once o >>= λ o. ok (record o { awaited = Awaited.ready_gpio }))
          else if_value (strip_prefix argument "--ready-gpio=")
              (λ value. gpio_once o >>= set_ready_gpio value) (accept_positional argument o))

-- One argument: the value that an option waits for, or a new option.
unfoldable pub accept : Awaited → String → Parsing → Outcome Parsing
accept Awaited.nothing argument o = accept_argument argument o
accept Awaited.idle_pull argument o = set_idle_pull argument o
accept Awaited.ready_gpio argument o = set_ready_gpio argument o

-- `arguments.get(index).ok_or_else(…)` at the end of the arguments.
unfoldable pub finish_arguments : Awaited → Parsing → Outcome Parsing
finish_arguments Awaited.nothing o = ok o
finish_arguments Awaited.idle_pull o = invalid_input "--idle-pull requires none, down, or up"
finish_arguments Awaited.ready_gpio o = invalid_input "--ready-gpio requires a GPIO number"

-- The `while` over the arguments behind the program's name.
unfoldable pub parse_arguments : List String → Parsing → Outcome Parsing
parse_arguments [] o = finish_arguments o.awaited o
parse_arguments (argument ∷ rest) o = accept o.awaited argument o >>= parse_arguments rest

-- The test behind the loop.
unfoldable pub conflicts : Parsing → Bool
conflicts o =
    (o.unload
      && (o.receive_only
          || is_given o.ready_gpio
          || is_nonempty o.positionals
          || pulls o.idle_pull))
    || ltb 2 (length o.positionals)

unfoldable pub complete : Parsing → Outcome Options
complete o =
    if conflicts o
    then invalid_input usage
    else ok (record {
      unload = o.unload;
      receive_only = o.receive_only;
      address = first o.positionals;
      kernel_directory = second o.positionals;
      idle_pull = o.idle_pull;
      ready_gpio = o.ready_gpio;
    })

-- `Options::parse`, of the arguments behind the program's name
unfoldable pub parse : List String → Outcome Options
parse arguments = parse_arguments arguments initial >>= complete
