-- ===== src/Driver/Settings/Bounds.antt =====
-- src/kernel_target.rs: what the numbers of the command line may be.
use raspberry_pi_i2c_target.Prelude.{
  ℕ, ◌≤◌, Bool, true, ◌≡◌, refl, arith, some, Outcome, ok, err, panic, out_of_fuel, ◌==◌,
  holds_below, holds_below_at, leb, if◌then◌else◌, false,
}
use raspberry_pi_i2c_target.Text.{
  String, ◌<>◌, hex, strip_prefix, parse_digits, parse_unsigned, digit_value, digit, digits,
}
use raspberry_pi_i2c_target.Driver.Settings.{parse_address, parse_gpio}

abbrev reads : ℕ → Outcome ℕ → Bool
reads a (ok b) = a == b
reads a (err e) = false
reads a panic = false
reads a out_of_fuel = false

reads-eq : (a : ℕ) (r : Outcome ℕ) → reads a r ≡ true → r ≡ ok a
reads-eq a r h = ground arith

abbrev reads_back : ℕ → Bool
reads_back a = if leb 0x08 a then reads a (parse_address (some ("0x" <> hex a)) 0) else true

all_read_back : holds_below 0x78 reads_back ≡ true
unfolding holds_below parse_address hex digits digit parse_unsigned parse_digits digit_value
    strip_prefix
all_read_back = refl

-- The hexadecimal form in which the programs print an address is read back as that address.
pub parse_address-hex :
    (a default : ℕ) → 0x08 ≤ a → a ≤ 0x77 → parse_address (some ("0x" <> hex a)) default ≡ ok a
unfolding parse_address
parse_address-hex a default low high =
    reads-eq a (parse_address (some ("0x" <> hex a)) 0)
      (ground (arith, low, holds_below_at 0x78 reads_back a all_read_back (omega (arith, high))))

-- A GPIO that `parse_gpio` gives is a BCM number.
pub parse_gpio-bounds : (value : String) (g : ℕ) → parse_gpio value ≡ ok g → g ≤ 53
unfolding parse_gpio
parse_gpio-bounds value g e = ground (arith, e)
