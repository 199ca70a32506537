-- ===== src/VirtualDisplay/Options/Coherent.antt =====
-- src/bin/virtual-display.rs: what holds of the options that `Options::parse` gives.
use raspberry_pi_i2c_target.Prelude.{
  ℕ, Bool, true, false, not, ◌&&◌, ◌||◌, ◌≡◌, refl, arith, Option, none, some, List, [], ◌∷◌, ◌==◌,
  Outcome, ok, err, panic, out_of_fuel, ◌>>=◌, >>=-eq-ok,
}
use raspberry_pi_i2c_target.Text.{String, equals, strip_prefix}
use raspberry_pi_i2c_target.Driver.Settings.{IdlePull, parse_idle_pull}
use raspberry_pi_i2c_target.CommandLine.Good.{good, if-good, if_value-good, >>=-good}
use raspberry_pi_i2c_target.VirtualDisplay.Options.{
  outputs_once, Options, Awaited, Parsing, initial, parse_button_outputs, set_title,
  set_button_outputs, set_display, set_idle_pull, accept_positional, accept_argument, accept,
  finish_arguments, parse_arguments, conflicts, complete, parse,
}

-- The two outputs of a pair are different lines.
abbrev pub differ : Option (ℕ × ℕ) → Bool
differ none = true
differ (some (left, right)) = not (left == right)

abbrev lacks : {A : Type 0} → Option A → Bool
lacks none = true
lacks (some a) = false

abbrev awaits_outputs : Awaited → Bool
awaits_outputs Awaited.button_outputs = true
awaits_outputs Awaited.nothing = false
awaits_outputs Awaited.title = false
awaits_outputs Awaited.display = false
awaits_outputs Awaited.idle_pull = false

-- What the loop keeps: outputs are set only where they have been chosen, and they differ.
abbrev sound : Parsing → Bool
sound o =
    differ o.button_outputs
    && (o.button_outputs_seen || lacks o.button_outputs)
    && (not (awaits_outputs o.awaited) || o.button_outputs_seen)

-- A sound value or an error, never a panic.
abbrev keeps : Outcome Parsing → Bool
keeps = good sound

abbrev distinct_pair : Outcome (ℕ × ℕ) → Bool
distinct_pair (ok outputs) = differ (some outputs)
distinct_pair (err e) = true
distinct_pair panic = false
distinct_pair out_of_fuel = false

parse_button_outputs-distinct : (value : String) → distinct_pair (parse_button_outputs value) ≡ true
unfolding parse_button_outputs
parse_button_outputs-distinct value = ground arith

module _ (o : Parsing) (s : sound o ≡ true) where
  set_button_outputs-keeps :
      (value : String) → o.button_outputs_seen ≡ true → keeps (set_button_outputs value o) ≡ true
  unfolding set_button_outputs
  set_button_outputs-keeps value seen = ground (arith, seen, parse_button_outputs-distinct value)

  set_display-keeps : (value : String) → keeps (set_display value o) ≡ true
  unfolding set_display
  set_display-keeps value = ground (arith, s)

  set_idle_pull-keeps : (value : String) → keeps (set_idle_pull value o) ≡ true
  unfolding set_idle_pull parse_idle_pull
  set_idle_pull-keeps value = ground (arith, s)

  accept_positional-keeps : (argument : String) → keeps (accept_positional argument o) ≡ true
  unfolding accept_positional
  accept_positional-keeps argument = ground (arith, s)

  chosen_outputs-keeps :
      (value : String) → keeps (outputs_once o >>= set_button_outputs value) ≡ true
  unfolding set_button_outputs
  chosen_outputs-keeps value = ground (arith, s, parse_button_outputs-distinct value)

  accept_argument-keeps : (argument : String) → keeps (accept_argument argument o) ≡ true
  unfolding accept_argument set_title
  accept_argument-keeps argument =
      if-good sound (equals argument "--unload") _ _ (ground (arith, s)) (
        if-good sound (equals argument "--title") _ _ (ground (arith, s)) (
          if_value-good sound (strip_prefix argument "--title=") _ _ (λ value. ground (arith, s))
            (if-good sound (equals argument "--button-outputs") _ _ (ground (arith, s)) (
              if_value-good sound (strip_prefix argument "--button-outputs=") _ _
                chosen_outputs-keeps
                (if-good sound (equals argument "--no-button-outputs") _ _ (ground (arith, s)) (
                  if-good sound (equals argument "--vsync") _ _ (ground (arith, s)) (
                    if-good sound (equals argument "--display") _ _ (ground (arith, s)) (
                      if_value-good sound (strip_prefix argument "--display=") _ _
                        (λ value. ground (arith, set_display-keeps value))
                        (if-good sound (equals argument "--idle-pull") _ _ (ground (arith, s)) (
                          if_value-good sound (strip_prefix argument "--idle-pull=") _ _
                            set_idle_pull-keeps (accept_positional-keeps argument)))))))))))

  accept-keeps :
      (a : Awaited) (argument : String) → o.awaited ≡ a → keeps (accept a argument o) ≡ true
  unfolding accept set_title
  accept-keeps Awaited.nothing argument e = accept_argument-keeps argument
  accept-keeps Awaited.title argument e = ground (arith, s)
  accept-keeps Awaited.button_outputs argument e =
      set_button_outputs-keeps argument (ground (arith, s, e))
  accept-keeps Awaited.display argument e = set_display-keeps argument
  accept-keeps Awaited.idle_pull argument e = set_idle_pull-keeps argument

parse_arguments-keeps :
    (arguments : List String) (o : Parsing)
    → sound o ≡ true
    → keeps (parse_arguments arguments o) ≡ true
unfolding parse_arguments finish_arguments
parse_arguments-keeps [] o s = ground (arith, s)
parse_arguments-keeps (argument ∷ rest) o s =
    >>=-good sound (accept o.awaited argument o) (parse_arguments rest)
      (accept-keeps o s o.awaited argument refl) (parse_arguments-keeps rest)

-- The options of a run that only unloads are bare; those of any other run name a controller, so
-- that `main` finds one; and two button outputs are never the same line.
pub record IsCoherent (o : Options) : Type 0 where
  pub bare :
      o.unload ≡ true
      → (o.display ≡ none)
        × (o.title ≡ none)
        × (o.button_outputs ≡ none)
        × (o.vsync ≡ false)
        × (o.address ≡ none)
        × (o.kernel_directory ≡ none)
        × (o.idle_pull ≡ IdlePull.no_pull)
  pub names_controller : o.unload ≡ false → lacks o.display ≡ false
  pub outputs_differ : differ o.button_outputs ≡ true

complete-IsCoherent :
    (o : Parsing) (options : Options)
    → sound o ≡ true
    → complete o ≡ ok options
    → IsCoherent options
unfolding complete conflicts
complete-IsCoherent o options s e = record {
  bare = ground (arith, s, e);
  names_controller = ground (arith, s, e);
  outputs_differ = ground (arith, s, e);
}

-- The options that `Options::parse` accepts are coherent.
pub parse-IsCoherent :
    (arguments : List String) (options : Options)
    → parse arguments ≡ ok options
    → IsCoherent options
unfolding parse
parse-IsCoherent arguments options e =
    let (o, eo, ec) = >>=-eq-ok (parse_arguments arguments initial) complete e in
    complete-IsCoherent o options (ground (arith, eo, parse_arguments-keeps arguments initial refl))
      ec
