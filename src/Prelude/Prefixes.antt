-- ===== src/Prelude/Prefixes.antt =====
-- How `starts_with` fares when the stream grows at its end.
use Prim.Native.Nat.{◌≤◌}
use mathlib.Core.Path.{◌≡◌, refl}
use mathlib.Core.Bool.{true, false}
use mathlib.Core.List.{[], ◌∷◌, ◌++◌}
use native.Mathlib.Omega.{arith}
use raspberry_pi_i2c_target.Prelude.Lists.{length}
use raspberry_pi_i2c_target.Prelude.Slices.{Bytes, starts_with}

pub starts_with-length : (xs ys : Bytes) → starts_with xs ys ≡ true → length ys ≤ length xs
unfolding starts_with
starts_with-length xs [] h = omega arith
starts_with-length [] (y ∷ ys) h = cc
starts_with-length (x ∷ xs) (y ∷ ys) h = ground (arith, starts_with-length xs ys)

-- A prefix that is there stays there.
pub starts_with-append :
    (xs ys more : Bytes) → starts_with xs ys ≡ true → starts_with (xs ++ more) ys ≡ true
unfolding starts_with
starts_with-append xs [] more h = ground arith
starts_with-append [] (y ∷ ys) more h = cc
starts_with-append (x ∷ xs) (y ∷ ys) more h = ground (arith, starts_with-append xs ys more)

-- What is no prefix of `ys` does not become one.
pub starts_with-append_right :
    (ys xs more : Bytes) → starts_with ys xs ≡ false → starts_with ys (xs ++ more) ≡ false
unfolding starts_with
starts_with-append_right ys [] more h = ground arith
starts_with-append_right [] (x ∷ xs) more h = refl
starts_with-append_right (y ∷ ys) (x ∷ xs) more h =
    ground (arith, starts_with-append_right ys xs more)

-- Two texts that differ before either ends still differ.
pub starts_with-append_apart :
    (xs ys more : Bytes)
    → starts_with xs ys ≡ false
    → starts_with ys xs ≡ false
    → starts_with (xs ++ more) ys ≡ false
unfolding starts_with
starts_with-append_apart [] [] more h k = ground arith
starts_with-append_apart [] (y ∷ ys) more h k = ground arith
starts_with-append_apart (x ∷ xs) [] more h k = ground arith
starts_with-append_apart (x ∷ xs) (y ∷ ys) more h k =
    ground (arith, starts_with-append_apart xs ys more)
