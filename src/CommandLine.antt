-- ===== src/CommandLine.antt =====
-- What the option parsers of the programs share: the tests of an option that has been given, and the
-- first two positional arguments.
pub mod Good
use raspberry_pi_i2c_target.Prelude.{Bool, true, false, Option, none, some, List, [], ◌∷◌, Outcome}
use raspberry_pi_i2c_target.Text.{String}
use raspberry_pi_i2c_target.Driver.Settings.{IdlePull}

abbrev pub is_given : {A : Type 0} → Option A → Bool
is_given none = false
is_given (some a) = true

-- `else if let Some(value) = argument.strip_prefix(…)`
abbrev pub if_value : {A : Type 0} → Option String → (String → Outcome A) → Outcome A → Outcome A
if_value (some value) f rest = f value
if_value none f rest = rest

abbrev pub pulls : IdlePull → Bool
pulls IdlePull.no_pull = false
pulls IdlePull.down = true
pulls IdlePull.up = true

-- `!positionals.is_empty()`
abbrev pub is_nonempty : {A : Type 0} → List A → Bool
is_nonempty [] = false
is_nonempty (a ∷ rest) = true

abbrev pub first : List String → Option String
first [] = none
first (a ∷ rest) = some a

abbrev pub second : List String → Option String
second [] = none
second (a ∷ rest) = first rest
