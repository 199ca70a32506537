-- ===== src/VirtualDisplay/Options.antt =====
-- src/bin/virtual-display.rs: `Options`, `Options::parse` and `parse_button_outputs`.
pub mod Coherent
use raspberry_pi_i2c_target.Prelude.{
  ℕ, Bool, true, false, not, ◌&&◌, ◌||◌, Option, none, some, List, [], ◌∷◌, ◌++◌, length, ltb, ◌==◌,
  if◌then◌else◌, Outcome, ok, err, ◌>>=◌,
}
use raspberry_pi_i2c_target.Text.{
  String, ◌<>◌, equals, strip_prefix, begins_with, split_once, parse_u32,
}
use raspberry_pi_i2c_target.Protocol.State.{DisplayController, parse_controller}
use raspberry_pi_i2c_target.CommandLine.{is_given, if_value, pulls, is_nonempty, first, second}
use raspberry_pi_i2c_target.Driver.Settings.{invalid_input, required, IdlePull, parse_idle_pull}

abbrev pub default_address : ℕ
default_address = 0x3c

abbrev pub default_button_outputs : ℕ × ℕ
default_button_outputs = (5, 26)

abbrev pub usage : String
usage =
    "usage: virtual-display [--display ssd1306|sh1106] [--title TEXT] [--button-outputs LEFT,RIGHT|--no-button-outputs] [--vsync] [--idle-pull none|down|up] [address] [kernel-directory]\n       virtual-display --unload"

pub record Options : Type 0 where
  pub unload : Bool
  pub display : Option DisplayController
  pub title : Option String
  pub button_outputs : Option (ℕ × ℕ)
  pub vsync : Bool
  pub address : Option String
  pub kernel_directory : Option String
  pub idle_pull : IdlePull

abbrev outputs_message : String
outputs_message = "--button-outputs requires LEFT,RIGHT GPIO numbers"

abbrev distinct : ℕ → ℕ → Outcome (ℕ × ℕ)
distinct left right =
    if left == right
    then invalid_input "button output GPIOs must be different"
    else ok (left, right)

unfoldable pub parse_button_outputs : String → Outcome (ℕ × ℕ)
parse_button_outputs value = required outputs_message (split_once value b',') >>= λ parts.
    required outputs_message (parse_u32 parts.0) >>= λ left.
    required outputs_message (parse_u32 parts.1) >>= λ right. distinct left right

-- An option whose value is the next argument.
pub data Awaited : Type 0 where
  nothing title button_outputs display idle_pull : Awaited

-- The variables of `Options::parse`; `awaited` stands for the step of `index` inside a branch.
pub record Parsing : Type 0 where
  pub awaited : Awaited
  pub unload : Bool
  pub display : Option DisplayController
  pub title : Option String
  pub button_outputs : Option (ℕ × ℕ)
  pub button_outputs_seen : Bool
  pub vsync : Bool
  pub idle_pull : IdlePull
  pub positionals : List String

abbrev pub initial : Parsing
initial = record {
  awaited = Awaited.nothing;
  unload = false;
  display = none;
  title = none;
  button_outputs = none;
  button_outputs_seen = false;
  vsync = false;
  idle_pull = IdlePull.no_pull;
  positionals = [];
}

-- The test of `title.is_some()`, `display.is_some()` or `button_outputs_seen`.
abbrev once : Bool → String → Parsing → Outcome Parsing
once seen message o = if seen then invalid_input message else ok o

abbrev title_once : Parsing → Outcome Parsing
title_once o = once (is_given o.title) "--title may be specified only once" o

abbrev display_once : Parsing → Outcome Parsing
display_once o = once (is_given o.display) "--display may be specified only once" o

-- With `button_outputs_seen = true` behind it.
abbrev pub outputs_once : Parsing → Outcome Parsing
outputs_once o =
    once o.button_outputs_seen "button-output selection may be specified only once" o >>= λ o.
    ok (record o { button_outputs_seen = true })

abbrev display_message : String
display_message = "--display requires ssd1306 or sh1106"

-- The value of an option, whichever way it was written.
unfoldable pub set_title : String → Parsing → Outcome Parsing
set_title value o = ok (record o { awaited = Awaited.nothing; title = some value })

unfoldable pub set_button_outputs : String → Parsing → Outcome Parsing
set_button_outputs value o = parse_button_outputs value >>= λ outputs.
    ok (record o { awaited = Awaited.nothing; button_outputs = some outputs })

unfoldable pub set_display : String → Parsing → Outcome Parsing
set_display value o = required display_message (parse_controller value) >>= λ controller.
    ok (record o { awaited = Awaited.nothing; display = some controller })

unfoldable pub set_idle_pull : String → Parsing → Outcome Parsing
set_idle_pull value o =
    parse_idle_pull value >>= λ pull. ok (record o { awaited = Awaited.nothing; idle_pull = pull })

abbrev await : Awaited → Parsing → Outcome Parsing
await awaited o = ok (record o { awaited = awaited })

-- The tests behind those for whole arguments: `--name=value`, an unknown option, a positional.
unfoldable pub accept_positional : String → Parsing → Outcome Parsing
accept_positional argument o =
    if begins_with argument b'-'
    then invalid_input ("unknown option " <> argument)
    else ok (record o { positionals = o.positionals ++ (argument ∷ []) })

-- The chain of `if`s from the first option to the last.
unfoldable pub accept_argument : String → Parsing → Outcome Parsing
accept_argument argument o =
    if equals argument "--unload"
    then ok (record o { unload = true })
    else if equals argument "--title"
    then title_once o >>= await Awaited.title
    else if_value (strip_prefix argument "--title=") (λ value. title_once o >>= set_title value)
        (if equals argument "--button-outputs"
          then outputs_once o >>= await Awaited.button_outputs
          else if_value (strip_prefix argument "--button-outputs=")
              (λ value. outputs_once o >>= set_button_outputs value)
              (if equals argument "--no-button-outputs"
                then outputs_once o
                else if equals argument "--vsync"
                then ok (record o { vsync = true })
                else if equals argument "--display"
                then display_once o >>= await Awaited.display
                else if_value (strip_prefix argument "--display=")
                    (λ value. display_once o >>= set_display value)
                    (if equals argument "--idle-pull"
                      then await Awaited.idle_pull o
                      else if_value (strip_prefix argument "--idle-pull=")
                          (λ value. set_idle_pull value o) (accept_positional argument o))))

-- One argument: the value that an option waits for, or a new option.
unfoldable pub accept : Awaited → String → Parsing → Outcome Parsing
accept Awaited.nothing argument o = accept_argument argument o
accept Awaited.title argument o = set_title argument o
accept Awaited.button_outputs argument o = set_button_outputs argument o
accept Awaited.display argument o = set_display argument o
accept Awaited.idle_pull argument o = set_idle_pull argument o

-- `arguments.get(index).ok_or_else(…)` at the end of the arguments.
unfoldable pub finish_arguments : Awaited → Parsing → Outcome Parsing
finish_arguments Awaited.nothing o = ok o
finish_arguments Awaited.title o = invalid_input "--title requires text"
finish_arguments Awaited.button_outputs o = invalid_input outputs_message
finish_arguments Awaited.display o = invalid_input display_message
finish_arguments Awaited.idle_pull o = invalid_input "--idle-pull requires none, down, or up"

-- The `while` over the arguments behind the program's name.
unfoldable pub parse_arguments : List String → Parsing → Outcome Parsing
parse_arguments [] o = finish_arguments o.awaited o
parse_arguments (argument ∷ rest) o = accept o.awaited argument o >>= parse_arguments rest

-- The test behind the loop.
unfoldable pub conflicts : Parsing → Bool
conflicts o =
    (o.unload
      && (is_given o.display
          || is_given o.title
          || o.button_outputs_seen
          || o.vsync
          || is_nonempty o.positionals
          || pulls o.idle_pull))
    || ltb 2 (length o.positionals)

-- `display.get_or_insert(DisplayController::Sh1106)`
abbrev or_sh1106 : Option DisplayController → Option DisplayController
or_sh1106 none = some DisplayController.sh1106
or_sh1106 (some controller) = some controller

unfoldable pub complete : Parsing → Outcome Options
complete o =
    if conflicts o
    then invalid_input usage
    else ok (record {
      unload = o.unload;
      display = if o.unload then o.display else or_sh1106 o.display;
      title = o.title;
      button_outputs =
          if o.unload || o.button_outputs_seen
          then o.button_outputs
          else some default_button_outputs;
      vsync = o.vsync;
      address = first o.positionals;
      kernel_directory = second o.positionals;
      idle_pull = o.idle_pull;
    })

-- `Options::parse`, of the arguments behind the program's name
unfoldable pub parse : List String → Outcome Options
parse arguments = parse_arguments arguments initial >>= complete
