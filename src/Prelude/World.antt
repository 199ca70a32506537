-- ===== src/Prelude/World.antt =====
-- Calls that change the world outside the program: each gives its outcome and the next world.
use mathlib.Core.Path.{◌≡◌, refl}
use mathlib.Core.Logic.{◌≢◌}
use mathlib.Core.Bool.{Bool, true, false}
use raspberry_pi_i2c_target.Prelude.Tests.{if◌then◌else◌}
use raspberry_pi_i2c_target.Prelude.Effects.{Outcome, ok, err, panic, out_of_fuel, Error}

abbrev pub Call : Type 0 → Type 0 → Type 0
Call W A = W → Outcome A × W

-- `let a = call()?;` and the rest
infixl 5 ◌>?◌
abbrev pub ◌>?◌ : {W A B : Type 0} → Outcome A × W → (A → W → Outcome B × W) → Outcome B × W
(ok a, w) >? f = f a w
(err e, w) >? f = (err e, w)
(panic, w) >? f = (panic, w)
(out_of_fuel, w) >? f = (out_of_fuel, w)

-- A test of the world, and a call that cannot fail.
infixl 5 ◌>!◌
abbrev pub ◌>!◌ : {W A B : Type 0} → A × W → (A → W → B) → B
(a, w) >! f = f a w

-- `call().map_err(f)`
abbrev pub map_error : {W A : Type 0} → (Error → Error) → Outcome A × W → Outcome A × W
map_error f (err e, w) = (err (f e), w)
map_error f (ok a, w) = (ok a, w)
map_error f (panic, w) = (panic, w)
map_error f (out_of_fuel, w) = (out_of_fuel, w)

-- What a successful sequence of two calls went through.
pub >?-eq-ok :
    {W A B : Type 0} (m : Outcome A × W) (k : A → W → Outcome B × W) {r : B}
    → (m >? k).0 ≡ ok r
    → (a : A) × (m.0 ≡ ok a) × ((k a m.1).0 ≡ ok r)
>?-eq-ok (ok a, w) k e = (a, refl, e)
>?-eq-ok (err error, w) k e = cc
>?-eq-ok (panic, w) k e = cc
>?-eq-ok (out_of_fuel, w) k e = cc

-- What is accepted behind a test that fails with an error has not met the test.
pub guard-eq-ok :
    {W B : Type 0} (test : Bool) (refused : Outcome B × W) (next : Outcome B × W) {r : B}
    → ((r : B) → refused.0 ≢ ok r)
    → (if test then refused else next).0 ≡ ok r
    → (test ≡ false) × (next.0 ≡ ok r)
guard-eq-ok true refused next {r} h e = absurd (h r e)
guard-eq-ok false refused next h e = (refl, e)

-- What a successful call is followed by.
pub >?-ok :
    {W A B : Type 0} (m : Outcome A × W) (k : A → W → Outcome B × W) (a : A)
    → m.0 ≡ ok a
    → (m >? k) ≡ k a m.1
>?-ok (ok a, w) k b e = let same : a ≡ b = cc in rw same refl
>?-ok (err error, w) k b e = cc
>?-ok (panic, w) k b e = cc
>?-ok (out_of_fuel, w) k b e = cc

-- Two calls that keep what `view` sees of the world.
pub >?-keeps :
    {W V A B : Type 0} (view : W → V) (seen : V) (m : Outcome A × W) (k : A → W → Outcome B × W)
    → view m.1 ≡ seen
    → ((a : A) (w : W) → view w ≡ seen → view (k a w).1 ≡ seen)
    → view (m >? k).1 ≡ seen
>?-keeps view seen (ok a, w) k e h = h a w e
>?-keeps view seen (err error, w) k e h = e
>?-keeps view seen (panic, w) k e h = e
>?-keeps view seen (out_of_fuel, w) k e h = e

-- Two calls, each of which respects a preorder of the worlds.
pub >?-reaches :
    {W A B : Type 0} (Reaches : W → W → Type 0)
    → ((u v w : W) → Reaches u v → Reaches v w → Reaches u w)
    → (start : W) (m : Outcome A × W) (next : A → W → Outcome B × W) → Reaches start m.1
    → ((a : A) (w : W) → Reaches w (next a w).1)
    → Reaches start (m >? next).1
>?-reaches Reaches join start (ok a, w) next h rest = join start w (next a w).1 h (rest a w)
>?-reaches Reaches join start (err error, w) next h rest = h
>?-reaches Reaches join start (panic, w) next h rest = h
>?-reaches Reaches join start (out_of_fuel, w) next h rest = h

-- Another message of an error leaves the world.
pub map_error-world :
    {W A : Type 0} (f : Error → Error) (m : Outcome A × W) → (map_error f m).1 ≡ m.1
map_error-world f (ok a, w) = refl
map_error-world f (err error, w) = refl
map_error-world f (panic, w) = refl
map_error-world f (out_of_fuel, w) = refl
