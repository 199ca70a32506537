-- ===== src/Responder/Options/Coherent.antt =====
-- src/bin/target-driver.rs: what holds of the options that `Options::parse` gives.
use raspberry_pi_i2c_target.Prelude.{
  ℕ, Bool, true, false, ◌≡◌, refl, arith, Option, none, some, List, [], ◌∷◌, leb, ◌||◌, Outcome, ok,
  >>=-eq-ok,
}
use raspberry_pi_i2c_target.Text.{String, equals, strip_prefix}
use raspberry_pi_i2c_target.CommandLine.Good.{good, if-good, if_value-good, >>=-good}
use raspberry_pi_i2c_target.Driver.Settings.{IdlePull, parse_idle_pull, parse_gpio}
use raspberry_pi_i2c_target.Responder.Options.{
  Options, Awaited, Parsing, initial, set_idle_pull, set_ready_gpio, accept_positional,
  accept_argument, accept, finish_arguments, parse_arguments, conflicts, complete, parse,
}

-- A READY line is a BCM GPIO.
abbrev pub bcm_gpio : Option ℕ → Bool
bcm_gpio none = true
bcm_gpio (some gpio) = leb gpio 53

abbrev fits : Parsing → Bool
fits o = bcm_gpio o.ready_gpio

abbrev keeps : Outcome Parsing → Bool
keeps = good fits

module _ (o : Parsing) (s : bcm_gpio o.ready_gpio ≡ true) where
  set_ready_gpio-keeps : (value : String) → keeps (set_ready_gpio value o) ≡ true
  unfolding set_ready_gpio parse_gpio
  set_ready_gpio-keeps value = ground arith

  set_idle_pull-keeps : (value : String) → keeps (set_idle_pull value o) ≡ true
  unfolding set_idle_pull parse_idle_pull
  set_idle_pull-keeps value = ground arith

  accept_argument-keeps : (argument : String) → keeps (accept_argument argument o) ≡ true
  unfolding accept_argument accept_positional
  accept_argument-keeps argument = if-good fits (equals argument "--unload") _ _ s (
      if-good fits (equals argument "--receive-only" || equals argument "--no-answer") _ _ s (
        if-good fits (equals argument "--idle-pull") _ _ s (
          if_value-good fits (strip_prefix argument "--idle-pull=") _ _ set_idle_pull-keeps (
            if-good fits (equals argument "--ready-gpio") _ _ (ground (arith, s)) (
              if_value-good fits (strip_prefix argument "--ready-gpio=") _ _
                (λ value. ground (arith, s, set_ready_gpio-keeps value)) (ground (arith, s)))))))

  accept-keeps : (a : Awaited) (argument : String) → keeps (accept a argument o) ≡ true
  unfolding accept
  accept-keeps Awaited.nothing argument = accept_argument-keeps argument
  accept-keeps Awaited.idle_pull argument = set_idle_pull-keeps argument
  accept-keeps Awaited.ready_gpio argument = set_ready_gpio-keeps argument

parse_arguments-keeps :
    (arguments : List String) (o : Parsing)
    → bcm_gpio o.ready_gpio ≡ true
    → keeps (parse_arguments arguments o) ≡ true
unfolding parse_arguments finish_arguments
parse_arguments-keeps [] o s = ground (arith, s)
parse_arguments-keeps (argument ∷ rest) o s =
    >>=-good fits (accept o.awaited argument o) (parse_arguments rest)
      (accept-keeps o s o.awaited argument) (parse_arguments-keeps rest)

-- The options of a run that only unloads are bare, and a READY line is a BCM GPIO.
pub record IsCoherent (o : Options) : Type 0 where
  pub bare :
      o.unload ≡ true
      → (o.receive_only ≡ false)
        × (o.ready_gpio ≡ none)
        × (o.address ≡ none)
        × (o.kernel_directory ≡ none)
        × (o.idle_pull ≡ IdlePull.no_pull)
  pub gpio_fits : bcm_gpio o.ready_gpio ≡ true

complete-IsCoherent :
    (o : Parsing) (options : Options)
    → bcm_gpio o.ready_gpio ≡ true
    → complete o ≡ ok options
    → IsCoherent options
unfolding complete conflicts
complete-IsCoherent o options s e = record {
  bare = ground (arith, s, e);
  gpio_fits = ground (arith, s, e);
}

-- The options of the responder that `Options::parse` accepts are coherent: with `--unload` nothing
-- else is given, and a READY line is a BCM GPIO in 0..=53.
pub responder_options-IsCoherent :
    (arguments : List String) (options : Options)
    → parse arguments ≡ ok options
    → IsCoherent options
unfolding parse
responder_options-IsCoherent arguments options e =
    let (o, eo, ec) = >>=-eq-ok (parse_arguments arguments initial) complete e in
    complete-IsCoherent o options (ground (arith, eo, parse_arguments-keeps arguments initial refl))
      ec
