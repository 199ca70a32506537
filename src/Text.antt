-- ===== src/Text.antt =====
-- Texts as the programs read and write them: what Rust's `str` and `format!` do with the texts of
-- the command lines and of the error messages.
use Prim.Native.Char.{Char, code}
use Prim.Native.String.{slice}
use raspberry_pi_i2c_target.Prelude.{
  ℕ, zero, suc, ◌+◌, ◌-◌, ◌*◌, ◌/◌, ◌%◌, Bool, true, false, ◌&&◌, ◌||◌, List, [], ◌∷◌, Option, none,
  some, ltb, leb, ◌==◌, within, if◌then◌else◌,
}
pub use Prim.Native.String.{String, ◌++◌ as ◌<>◌}

-- `s == t`
unfoldable pub equals : String → String → Bool
equals String.[] String.[] = true
equals String.[] (String.◌∷◌ d t) = false
equals (String.◌∷◌ c s) String.[] = false
equals (String.◌∷◌ c s) (String.◌∷◌ d t) = code c == code d && equals s t

-- `s.strip_prefix(t)`
unfoldable pub strip_prefix : String → String → Option String
strip_prefix s String.[] = some s
strip_prefix String.[] (String.◌∷◌ d t) = none
strip_prefix (String.◌∷◌ c s) (String.◌∷◌ d t) = if code c == code d then strip_prefix s t else none

unfoldable pub begins_with : String → ℕ → Bool
begins_with String.[] mark = false
begins_with (String.◌∷◌ c s) mark = code c == mark

abbrev put_back : (c : String) → Option (String × String) → Option (String × String)
put_back c none = none
put_back c (some (s, t)) = some (c <> s, t)

-- `s.split_once(mark)` for a character
unfoldable pub split_once : String → ℕ → Option (String × String)
split_once String.[] mark = none
split_once (String.◌∷◌ c s) mark =
    if code c == mark
    then some (String.[], s)
    else put_back (String.◌∷◌ c String.[]) (split_once s mark)

-- `char::to_digit`, before the test of the radix
unfoldable pub digit_value : ℕ → ℕ
digit_value c =
    if within b'0' b'9' c
    then c - b'0'
    else if within b'a' b'z' c
    then c - b'a' + 10
    else if within b'A' b'Z' c
    then c - b'A' + 10
    else 36

-- The digits behind the sign; `limit` is the largest number of the type.
unfoldable pub parse_digits : (radix limit : ℕ) → ℕ → String → Option ℕ
parse_digits radix limit value String.[] = some value
parse_digits radix limit value (String.◌∷◌ c s) =
    if ltb (digit_value (code c)) radix && leb (value * radix + digit_value (code c)) limit
    then parse_digits radix limit (value * radix + digit_value (code c)) s
    else none

unfoldable pub parse_unsigned : (radix limit : ℕ) → String → Option ℕ
parse_unsigned radix limit String.[] = none
parse_unsigned radix limit (String.◌∷◌ c String.[]) =
    parse_digits radix limit 0 (String.◌∷◌ c String.[])
parse_unsigned radix limit (String.◌∷◌ c (String.◌∷◌ d s)) =
    if code c == b'+'
    then parse_digits radix limit 0 (String.◌∷◌ d s)
    else parse_digits radix limit 0 (String.◌∷◌ c (String.◌∷◌ d s))

-- `s.parse::<u32>()`
abbrev pub parse_u32 : String → Option ℕ
parse_u32 = parse_unsigned 10 0xffff_ffff

-- `u16::from_str_radix(s, radix)`, and `s.parse::<u16>()` for radix 10
abbrev pub parse_u16 : (radix : ℕ) → String → Option ℕ
parse_u16 radix = parse_unsigned radix 0xffff

unfoldable pub digit : ℕ → String
digit n = slice "0123456789abcdef" n (suc n)

-- The digits of `n`, at most `fuel` of them.
unfoldable pub digits : (radix fuel : ℕ) → ℕ → String
digits radix zero n = ""
digits radix (suc fuel) n =
    let front = digits radix fuel (n / radix) in
    if ltb n radix then digit n else front <> digit (n % radix)

-- `{n}` of a `u32` or a `usize`: twenty digits hold 2 ^ 64.
abbrev pub decimal : ℕ → String
decimal = digits 10 20

-- `{n:02x}` of a `u16`
unfoldable pub hex : ℕ → String
hex n = if ltb n 16 then "0" <> digit n else digits 16 4 n

-- `s.contains(t)`
unfoldable pub contains_text : String → String → Bool
contains_text String.[] t = elim (strip_prefix String.[] t) [ none ↦ false | some rest ↦ true ]
contains_text (String.◌∷◌ c s) t = elim (strip_prefix (String.◌∷◌ c s) t) [
  | none ↦ contains_text s t
  | some rest ↦ true
]

-- `u8::is_ascii_whitespace`
unfoldable pub is_space : ℕ → Bool
is_space c = c == 0x20 || c == 0x09 || c == 0x0a || c == 0x0c || c == 0x0d

abbrev add_word : String → List String → List String
add_word String.[] words = words
add_word (String.◌∷◌ c s) words = String.◌∷◌ c s ∷ words

-- The words of a text behind the start of one.
unfoldable pub words_from : String → String → List String
words_from word String.[] = add_word word []
words_from word (String.◌∷◌ c s) =
    if is_space (code c)
    then add_word word (words_from "" s)
    else words_from (word <> String.◌∷◌ c String.[]) s

-- `s.split_ascii_whitespace()`
abbrev pub words : String → List String
words = words_from ""

-- `char::is_whitespace`
unfoldable pub is_white : ℕ → Bool
is_white c =
    within 0x09 0x0d c
    || c == 0x20
    || c == 0x85
    || c == 0xa0
    || c == 0x1680
    || within 0x2000 0x200a c
    || within 0x2028 0x2029 c
    || c == 0x202f
    || c == 0x205f
    || c == 0x3000

unfoldable pub trim_start : String → String
trim_start String.[] = String.[]
trim_start (String.◌∷◌ c s) = if is_white (code c) then trim_start s else String.◌∷◌ c s

-- A character in front of what is left of the text behind it.
abbrev pub in_front : Char → String → String
in_front c String.[] = if is_white (code c) then String.[] else String.◌∷◌ c String.[]
in_front c (String.◌∷◌ e s) = String.◌∷◌ c (String.◌∷◌ e s)

unfoldable pub trim_end : String → String
trim_end String.[] = String.[]
trim_end (String.◌∷◌ c s) = in_front c (trim_end s)

-- `s.trim()`
abbrev pub trim : String → String
trim s = trim_end (trim_start s)

-- The number of bytes that a character takes in UTF-8.
abbrev utf8_width : ℕ → ℕ
utf8_width c = if ltb c 0x80 then 1 else if ltb c 0x800 then 2 else if ltb c 0x10000 then 3 else 4

-- `s.len()`, which counts bytes
unfoldable pub byte_length : String → ℕ
byte_length String.[] = 0
byte_length (String.◌∷◌ c s) = utf8_width (code c) + byte_length s
