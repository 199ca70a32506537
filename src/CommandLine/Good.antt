-- ===== src/CommandLine/Good.antt =====
-- What an option parser keeps: a state that passes a test, or an error, and never a panic.
use raspberry_pi_i2c_target.Prelude.{
  Bool, true, false, ◌≡◌, Option, none, some, Outcome, ok, err, panic, out_of_fuel, ◌>>=◌,
  if◌then◌else◌,
}
use raspberry_pi_i2c_target.Text.{String}
use raspberry_pi_i2c_target.CommandLine.{if_value}

module _ {S : Type 0} (test : S → Bool) where
  abbrev pub good : Outcome S → Bool
  good (ok s) = test s
  good (err e) = true
  good panic = false
  good out_of_fuel = false

  pub if-good :
      (b : Bool) (x y : Outcome S)
      → good x ≡ true
      → good y ≡ true
      → good (if b then x else y) ≡ true
  if-good true x y hx hy = hx
  if-good false x y hx hy = hy

  pub if_value-good :
      (v : Option String) (f : String → Outcome S) (rest : Outcome S)
      → ((value : String) → good (f value) ≡ true)
      → good rest ≡ true
      → good (if_value v f rest) ≡ true
  if_value-good (some value) f rest hf hr = hf value
  if_value-good none f rest hf hr = hr

  pub >>=-good :
      (r : Outcome S) (f : S → Outcome S)
      → good r ≡ true
      → ((s : S) → test s ≡ true → good (f s) ≡ true)
      → good (r >>= f) ≡ true
  >>=-good (ok s) f h k = k s h
  >>=-good (err e) f h k = h
  >>=-good panic f h k = h
  >>=-good out_of_fuel f h k = h
