-- ===== src/Prelude/Effects.antt =====
-- What a call of the program may come to: a value, an `io::Error`, a Rust panic, or, in a model
-- of a loop, the end of its fuel.
use mathlib.Core.Path.{◌≡◌, refl}
use Prim.Native.String.{String}

-- The members of `io::ErrorKind` that the program names.
pub data ErrorKind : Type 0 where
  invalid_input unsupported not_found permission_denied already_exists : ErrorKind
  timed_out write_zero would_block interrupted other : ErrorKind

pub record Error : Type 0 where
  pub kind : ErrorKind
  pub message : String

pub data Outcome {ℓ} (A : Type ℓ) : Type ℓ where
  ok : A → Outcome A
  err : Error → Outcome A
  panic : Outcome A
  out_of_fuel : Outcome A

infixl 5 ◌>>=◌
abbrev pub ◌>>=◌ {ℓ κ} : {A : Type ℓ} {B : Type κ} → Outcome A → (A → Outcome B) → Outcome B
ok a >>= f = f a
err e >>= f = err e
panic >>= f = panic
out_of_fuel >>= f = out_of_fuel

abbrev pub map_ok {ℓ κ} : {A : Type ℓ} {B : Type κ} → (A → B) → Outcome A → Outcome B
map_ok f m = m >>= λ a. ok (f a)

-- What a successful sequence of two calls went through.
pub >>=-eq-ok {ℓ κ} :
    {A : Type ℓ} {B : Type κ} (first : Outcome A) (next : A → Outcome B) {result : B}
    → (first >>= next) ≡ ok result
    → (value : A) × (first ≡ ok value) × (next value ≡ ok result)
>>=-eq-ok (ok value) next e = (value, refl, e)
>>=-eq-ok (err error) next e = cc
>>=-eq-ok panic next e = cc
>>=-eq-ok out_of_fuel next e = cc
