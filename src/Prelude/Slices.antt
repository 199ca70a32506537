-- ===== src/Prelude/Slices.antt =====
-- The operations of byte slices that the parsers use, with the panics of Rust.
use Prim.Native.Nat.{ℕ, ◌+◌, ◌-◌, ◌≤◌}
use mathlib.Core.Path.{◌≡◌, ap}
use mathlib.Core.Bool.{Bool, true, false, ◌&&◌}
use mathlib.Core.List.{List, [], ◌∷◌, ◌++◌}
use native.Mathlib.Omega.{arith}
use raspberry_pi_i2c_target.Prelude.Tests.{ltb, leb, ◌==◌, if◌then◌else◌}
use raspberry_pi_i2c_target.Prelude.Lists.{length, get_or, take, drop}
use raspberry_pi_i2c_target.Prelude.Lists.{
  length-append, length-take, length-drop, get_or-append, get_or-take, get_or-drop,
}
use raspberry_pi_i2c_target.Prelude.Effects.{Outcome, ok, panic}

-- A `u8` is a number below 256.
abbrev pub Bytes : Type 0
Bytes = List ℕ

-- `xs.starts_with(ys)`
unfoldable pub starts_with : Bytes → Bytes → Bool
starts_with xs [] = true
starts_with [] (y ∷ ys) = false
starts_with (x ∷ xs) (y ∷ ys) = x == y && starts_with xs ys

-- `&xs[from..to]`
unfoldable pub slice : Bytes → ℕ → ℕ → Outcome Bytes
slice xs from to =
    if leb from to && leb to (length xs) then ok (take (to - from) (drop from xs)) else panic

-- `xs[from..to].copy_from_slice(ys)`
unfoldable pub copy_from_slice : Bytes → ℕ → ℕ → Bytes → Outcome Bytes
copy_from_slice xs from to ys =
    if leb from to && leb to (length xs) && length ys == to - from
    then ok (take from xs ++ (ys ++ drop to xs))
    else panic

-- What a copy into the bounds leaves.
abbrev pub splice : Bytes → ℕ → Bytes → Bytes
splice xs from ys = take from xs ++ (ys ++ drop (from + length ys) xs)

pub length-splice :
    (xs : Bytes) (from : ℕ) (ys : Bytes)
    → from + length ys ≤ length xs
    → length (splice xs from ys) ≡ length xs
length-splice xs from ys h = omega (
  arith,
  length-append (take from xs) (ys ++ drop (from + length ys) xs),
  length-append ys (drop (from + length ys) xs),
  length-take from xs,
  length-drop (from + length ys) xs,
)

pub copy_from_slice-eq-splice :
    (xs : Bytes) (from to : ℕ) (ys : Bytes)
    → from + length ys ≡ to
    → to ≤ length xs
    → copy_from_slice xs from to ys ≡ ok (splice xs from ys)
unfolding copy_from_slice
copy_from_slice-eq-splice xs from to ys e h = rw (← e) (ground arith)

-- Byte `i` after a copy: the new one inside the copied range, the old one elsewhere.
pub get_or-splice :
    (xs : Bytes) (from : ℕ) (ys : Bytes) (i d : ℕ)
    → from + length ys ≤ length xs
    → get_or (splice xs from ys) i d
      ≡ (if leb from i && ltb i (from + length ys) then get_or ys (i - from) d else get_or xs i d)
get_or-splice xs from ys i d h =
    rw (get_or-append (take from xs) (ys ++ drop (from + length ys) xs) i d) (
      rw (get_or-append ys (drop (from + length ys) xs) (i - length (take from xs)) d) (
        ground (
          arith,
          length-take from xs,
          get_or-take from i xs d,
          get_or-drop (from + length ys) (i - from - length ys) xs d,
          ap (λ j. get_or xs j d) (shift from (length ys) i),
          shift from (length ys) i,
        )))
  where
    shift : (a b c : ℕ) → a + b + (c - a - b) ≡ (if ltb c (a + b) then a + b else c)
    shift a b c = ground arith
