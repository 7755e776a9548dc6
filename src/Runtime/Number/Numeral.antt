-- ===== src/Runtime/Number/Numeral.antt =====
-- The texts that the parsers of src/wasm_runtime_core.cpp are meant to read: blanks, a sign, digits.
use dprint_clang_format.Base.{
  ℕ, ◌+◌, ◌-◌, ◌*◌, ◌%◌, ◌^◌, ◌≡◌, refl, true, false, [], ◌∷◌, ◌++◌, Bytes, arith, ◌==◌, All,
}
use dprint_clang_format.Base.Int.{ℤ, pos, negsuc}
use dprint_clang_format.Runtime.Number.{
  peek, is_digit, is_blank, skip_blanks, parse_sign_and_advance, read_digits,
}

abbrev pub IsDigit : ℕ → Type 0
IsDigit c = is_digit c ≡ true

abbrev pub IsBlank : ℕ → Type 0
IsBlank c = is_blank c ≡ true

-- The number that digits stand for, after the digits that stand for `v`.
abbrev pub number_from : ℕ → Bytes → ℕ
number_from v [] = v
number_from v (c ∷ s) = number_from (v * 10 + (c - b'0')) s

abbrev pub number : Bytes → ℕ
number s = number_from 0 s

pub data Sign : Type 0 where
  unsigned : Sign
  plus : Sign
  minus : Sign

abbrev pub sign_text : Sign → Bytes
sign_text unsigned = []
sign_text plus = b'+' ∷ []
sign_text minus = b'-' ∷ []

abbrev pub sign_value : Sign → ℤ
sign_value unsigned = pos 1
sign_value plus = pos 1
sign_value minus = negsuc 0

-- What stops the digits: the end of the text, or a byte that is no digit.
abbrev pub EndsDigits : Bytes → Type 0
EndsDigits s = is_digit (peek s) ≡ false

-- What can follow a sign that no digit follows: no blank, no sign and no digit.
abbrev pub IsOther : Bytes → Type 0
IsOther s =
    (is_digit (peek s) ≡ false)
    × (is_blank (peek s) ≡ false)
    × ((peek s == b'+') ≡ false)
    × ((peek s == b'-') ≡ false)

pub skip_blanks-append :
    (blanks s : Bytes)
    → All IsBlank blanks
    → is_blank (peek s) ≡ false
    → skip_blanks (blanks ++ s) ≡ s
unfolding skip_blanks peek
skip_blanks-append [] [] h e = refl
skip_blanks-append [] (c ∷ s) h e = ground arith
skip_blanks-append (b ∷ blanks) s (h, hs) e = rw h (skip_blanks-append blanks s hs e)

-- The sign is read off a text whose next byte is neither a blank nor a sign.
pub parse_sign-append :
    (sign : Sign) (s : Bytes)
    → ((peek s == b'+') ≡ false)
    → ((peek s == b'-') ≡ false)
    → parse_sign_and_advance (sign_text sign ++ s) ≡ (sign_value sign, s)
unfolding parse_sign_and_advance peek
parse_sign-append unsigned [] p q = refl
parse_sign-append unsigned (c ∷ s) p q = ground arith
parse_sign-append plus s p q = refl
parse_sign-append minus s p q = refl

-- Past the blanks the sign is the next thing.
pub sign_after_blanks :
    (blanks : Bytes) (sign : Sign) (s : Bytes)
    → All IsBlank blanks
    → (is_blank (peek s) ≡ false)
    → ((peek s == b'+') ≡ false)
    → ((peek s == b'-') ≡ false)
    → parse_sign_and_advance (skip_blanks (blanks ++ (sign_text sign ++ s))) ≡ (sign_value sign, s)
unfolding is_blank peek
sign_after_blanks blanks unsigned s h b p q =
    rw (skip_blanks-append blanks s h b) (parse_sign-append unsigned s p q)
sign_after_blanks blanks plus s h b p q =
    rw (skip_blanks-append blanks (b'+' ∷ s) h refl) (parse_sign-append plus s p q)
sign_after_blanks blanks minus s h b p q =
    rw (skip_blanks-append blanks (b'-' ∷ s) h refl) (parse_sign-append minus s p q)

pub read_digits-number :
    (v u : ℕ) (ds rest : Bytes)
    → All IsDigit ds
    → EndsDigits rest
    → v ≡ u % 2 ^ 64
    → read_digits 64 v (ds ++ rest) ≡ (number_from u ds % 2 ^ 64, rest)
unfolding read_digits peek
read_digits-number v u [] [] h stop e = ground arith
read_digits-number v u [] (c ∷ rest) h stop e = ground arith
read_digits-number v u (c ∷ ds) rest (h, hs) stop e = rw h (
    read_digits-number ((v * 10 + (c - b'0')) % 2 ^ 64) (u * 10 + (c - b'0')) ds rest hs stop
      (omega arith))

-- The bytes of a nonempty numeral's head: a digit is neither a blank nor a sign.
pub digit_is_other :
    (c : ℕ) → IsDigit c → (is_blank c ≡ false) × ((c == b'+') ≡ false) × ((c == b'-') ≡ false)
unfolding is_digit is_blank
digit_is_other c h = ground arith
