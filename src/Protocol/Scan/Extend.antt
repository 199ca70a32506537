-- ===== src/Protocol/Scan/Extend.antt =====
-- src/display_protocol.rs: `scan`, where more bytes stand behind those it reads.
use raspberry_pi_i2c_target.Prelude.{
  ℕ, ◌≤◌, ◌<◌, true, false, ◌⊎◌, ◌≢◌, ◌≡◌, refl, arith, length, length-append, drop-append, get_or,
  get_or-append, [], ◌∷◌, ◌++◌, Bytes, starts_with, within, starts_with-length,
}
use raspberry_pi_i2c_target.Protocol.State.{
  ssd1306_init, sh1106_init, sh1106_display_on, ParseUpdate, DisplayParser, Step,
}
use raspberry_pi_i2c_target.Protocol.Scan.{has_pattern, drained, incomplete, page_range}
use raspberry_pi_i2c_target.Protocol.Push.{presents, receive}

abbrev pub extend : Bytes → Step → Step
extend more s = record s { parser = receive s.parser more }

-- A round that drops bytes, changes the state or ends a frame.
abbrev pub Moves : Step → Type 0
Moves s = (s.progressed ≡ true) ⊎ (presents s.update ≡ true)

pub has_pattern-eq : (xs ys : Bytes) → has_pattern xs ys ≡ starts_with xs ys
unfolding has_pattern
has_pattern-eq xs ys = ground (arith, starts_with-length xs ys)

pub get_or-more :
    (xs more : Bytes) (i : ℕ) → i < length xs → get_or (xs ++ more) i 0 ≡ get_or xs i 0
get_or-more xs more i h = ground (arith, get_or-append xs more i 0)

-- The first bytes of the address command are not those of the start-up sequence.
pub address_ne_init :
    (xs : Bytes) → starts_with xs (0x00 ∷ 0x21 ∷ []) ≡ true → starts_with xs ssd1306_init ≡ false
unfolding starts_with
address_ne_init [] h = cc
address_ne_init (x ∷ []) h = ground arith
address_ne_init (x ∷ y ∷ xs) h = ground arith

-- Nor are those of a page command.
pub page_ne_init :
    (xs : Bytes)
    → within 0xb0 0xb7 (get_or xs 1 0) ≡ true
    → (starts_with xs sh1106_init ≡ false) × (starts_with xs sh1106_display_on ≡ false)
unfolding starts_with
page_ne_init [] h = (refl, refl)
page_ne_init (x ∷ []) h = ground arith
page_ne_init (x ∷ y ∷ xs) h = ground arith

pub page_range-append :
    (xs more : Bytes)
    → 5 ≤ length xs
    → page_range xs ≢ incomplete
    → page_range (xs ++ more) ≡ page_range xs
unfolding page_range
page_range-append xs more h k = ground (
  arith,
  get_or-more xs more 2,
  get_or-more xs more 3,
  get_or-more xs more 4,
  get_or-more xs more 5,
  length-append xs more,
)

-- A stream with a first byte other than zero keeps it.
pub zero_apart :
    (xs more : Bytes)
    → starts_with xs (0x00 ∷ []) ≡ false
    → starts_with sh1106_init xs ≡ false
    → starts_with (xs ++ more) (0x00 ∷ []) ≡ false
unfolding starts_with
zero_apart [] more h k = cc
zero_apart (x ∷ xs) more h k = ground arith

-- The switch-on sequence is not the start-up sequence.
pub on_ne_init :
    (xs : Bytes) → starts_with xs sh1106_display_on ≡ true → starts_with xs sh1106_init ≡ false
unfolding starts_with
on_ne_init [] h = cc
on_ne_init (x ∷ []) h = ground arith
on_ne_init (x ∷ y ∷ xs) h = ground arith

pub drained-append :
    (u : ParseUpdate) (more : Bytes) (n : ℕ) (q : DisplayParser)
    → n ≤ length q.pending
    → drained n (receive q more) u ≡ extend more (drained n q u)
drained-append u more n q h = ground (arith, drop-append n q.pending more h)
