-- ===== src/Runtime/Number.antt =====
-- The number parsers of src/wasm_runtime_core.cpp. A pointer into a text that ends with a NUL is the
-- list of the bytes from it on, and null is `none`: `*str` is the head, or the NUL at the end, and
-- `++str` goes to the tail. A `char` from 0x80 on is negative in the source; it is no digit either way.
-- Signed arithmetic that overflows wraps around, as the target's does.
pub mod Numeral
pub mod Integer
pub mod Decimal
pub mod Whole
use dprint_clang_format.Base.{
  ℕ, zero, suc, ◌+◌, ◌-◌, ◌*◌, ◌%◌, ◌^◌, Option, none, some, Bool, ◌&&◌, ◌||◌, List, [], ◌∷◌, Bytes,
  ltb, leb, ◌==◌, if◌then◌else◌,
}
use dprint_clang_format.Base.Int.{ℤ, pos, negsuc, ltb_ℤ}
use dprint_clang_format.Runtime.Floats.{Floats}

unfoldable pub peek : Bytes → ℕ
peek [] = 0
peek (c ∷ s) = c

unfoldable pub is_digit : ℕ → Bool
is_digit c = leb b'0' c && leb c b'9'

-- A space, a tab or a line feed.
unfoldable pub is_blank : ℕ → Bool
is_blank c = c == 32 || c == 9 || c == 10

unfoldable pub skip_blanks : Bytes → Bytes
unfolding is_blank
skip_blanks [] = []
skip_blanks (c ∷ s) = if is_blank c then skip_blanks s else c ∷ s

unfoldable pub parse_sign_and_advance : Bytes → ℤ × Bytes
parse_sign_and_advance [] = (pos 1, [])
parse_sign_and_advance (c ∷ s) =
    if c == b'-' then (negsuc 0, s) else if c == b'+' then (pos 1, s) else (pos 1, c ∷ s)

-- The loop over digits in a word of `w` bits, from the value so far.
unfoldable pub read_digits : ℕ → ℕ → Bytes → ℕ × Bytes
unfolding is_digit
read_digits w value [] = (value, [])
read_digits w value (c ∷ s) =
    if is_digit c then read_digits w ((value * 10 + (c - b'0')) % 2 ^ w) s else (value, c ∷ s)

-- `sign < 0 ? -value : value` on bit patterns of 64 bits.
with_sign : ℤ → ℕ → ℕ
with_sign sign value = if ltb_ℤ sign (pos 0) then (2 ^ 64 - value) % 2 ^ 64 else value

signed_digits : ℤ × Bytes → ℕ × Option Bytes
unfolding peek is_digit read_digits with_sign
signed_digits (sign, s) =
    if is_digit (peek s)
    then (with_sign sign (read_digits 64 0 s).0, some (read_digits 64 0 s).1)
    else (0, some s)

-- The value, as a pattern of 64 bits, and the pointer that is stored through `end` where that is not
-- null.
unfoldable pub strtoll : Option Bytes → ℕ → ℕ × Option Bytes
unfolding signed_digits parse_sign_and_advance skip_blanks
strtoll none base = (0, none)
strtoll (some str) base =
    if base == 10 then signed_digits (parse_sign_and_advance (skip_blanks str)) else (0, some str)

unsigned_digits : Bytes → ℕ × Option Bytes
unfolding peek is_digit read_digits
unsigned_digits s =
    if is_digit (peek s) then ((read_digits 64 0 s).0, some (read_digits 64 0 s).1) else (0, some s)

optional_plus : Bytes → ℕ × Option Bytes
unfolding unsigned_digits
optional_plus [] = unsigned_digits []
optional_plus (c ∷ s) =
    if c == b'+'
    then unsigned_digits s
    else if c == b'-'
    then (0, some (c ∷ s))
    else unsigned_digits (c ∷ s)

unfoldable pub strtoull : Option Bytes → ℕ → ℕ × Option Bytes
unfolding optional_plus skip_blanks
strtoull none base = (0, none)
strtoull (some str) base = if base == 10 then optional_plus (skip_blanks str) else (0, some str)

module _ (F : Floats) where
  digit : ℕ → F.Double
  digit c = F.of_nat (c - b'0')

  unfoldable pub whole_digits : F.Double → Bytes → F.Double × Bytes
  unfolding is_digit digit
  whole_digits value [] = (value, [])
  whole_digits value (c ∷ s) =
      if is_digit c
      then whole_digits (F.add (F.mul value (F.of_nat 10)) (digit c)) s
      else (value, c ∷ s)

  unfoldable pub fraction_digits : F.Double → F.Double → Bytes → F.Double × Bytes
  unfolding is_digit digit
  fraction_digits value place [] = (value, [])
  fraction_digits value place (c ∷ s) =
      if is_digit c
      then fraction_digits (F.add value (F.mul (digit c) place)) (F.mul place F.tenth) s
      else (value, c ∷ s)

  unfoldable pub fraction : F.Double × Bytes → F.Double × Bytes
  unfolding fraction_digits
  fraction (value, []) = (value, [])
  fraction (value, c ∷ s) = if c == b'.' then fraction_digits value F.tenth s else (value, c ∷ s)

  -- The loop that applies the exponent.
  unfoldable pub scale : ℕ → ℤ → F.Double → F.Double
  scale zero exp_sign value = value
  scale (suc k) exp_sign value =
      scale k exp_sign
        (if ltb_ℤ exp_sign (pos 0) then F.mul value F.tenth else F.mul value (F.of_nat 10))

  -- The exponent is an `int`: the loop makes no round where it is negative.
  rounds : ℕ → ℕ
  rounds exponent = if ltb exponent (2 ^ 31) then exponent else 0

  scaled : F.Double → ℤ × Bytes → F.Double × Bytes
  unfolding read_digits rounds scale
  scaled value (exp_sign, s) =
      (scale (rounds (read_digits 32 0 s).0) exp_sign value, (read_digits 32 0 s).1)

  unfoldable pub exponent_part : F.Double × Bytes → F.Double × Bytes
  unfolding scaled parse_sign_and_advance
  exponent_part (value, []) = (value, [])
  exponent_part (value, c ∷ s) =
      if c == b'e' || c == b'E' then scaled value (parse_sign_and_advance s) else (value, c ∷ s)

  signed_result : ℤ → F.Double × Bytes → F.Double × Option Bytes
  signed_result sign (value, s) = (if ltb_ℤ sign (pos 0) then F.negate value else value, some s)

  decimal : ℤ × Bytes → F.Double × Option Bytes
  unfolding signed_result exponent_part fraction whole_digits
  decimal (sign, s) = signed_result sign (exponent_part (fraction (whole_digits (F.of_nat 0) s)))

  -- The value, and the pointer that is stored through `end` where that is not null.
  unfoldable pub strtod : Option Bytes → F.Double × Option Bytes
  unfolding decimal parse_sign_and_advance skip_blanks
  strtod none = (F.of_nat 0, none)
  strtod (some str) = decimal (parse_sign_and_advance (skip_blanks str))

  unfoldable pub strtof : Option Bytes → F.Single × Option Bytes
  unfolding strtod
  strtof str = (F.narrow (strtod str).0, (strtod str).1)

  -- The result, and what is stored through `integer_part` where that is not null.
  unfoldable pub modf : F.Double → F.Double × F.Double
  modf value = (F.sub value (F.floor value), F.floor value)
