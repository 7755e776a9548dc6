-- ===== src/Runtime/Number/Integer.antt =====
-- What `strtoll` and `strtoull` of src/wasm_runtime_core.cpp return.
use dprint_clang_format.Base.{
  ◌+◌, ◌*◌, ℕ, ◌-◌, ◌%◌, ◌^◌, ◌<◌, ◌≡◌, refl, ◌∷◌, ◌++◌, Bytes, arith, All, some,
}
use dprint_clang_format.Base.Int.{ℤ, pos, neg, signed64}
use dprint_clang_format.Runtime.Number.{
  strtoll, strtoull, signed_digits, with_sign, unsigned_digits, optional_plus,
}
use dprint_clang_format.Runtime.Number.Numeral.{
  IsDigit, IsBlank, number, Sign, unsigned, plus, minus, sign_text, sign_value, EndsDigits,
  sign_after_blanks, read_digits-number, digit_is_other, skip_blanks-append,
}

abbrev pub signed_number : Sign → ℕ → ℤ
signed_number unsigned n = pos n
signed_number plus n = pos n
signed_number minus n = neg (pos n)

signed64-with_sign :
    (sign : Sign) (n : ℕ)
    → n < 2 ^ 63
    → signed64 (with_sign (sign_value sign) (n % 2 ^ 64)) ≡ signed_number sign n
unfolding with_sign
signed64-with_sign unsigned n h = ground arith
signed64-with_sign plus n h = ground arith
signed64-with_sign minus n h = ground arith

signed_digits-number :
    (sign : ℤ) (d : ℕ) (ds rest : Bytes)
    → All IsDigit (d ∷ ds)
    → EndsDigits rest
    → signed_digits (sign, d ∷ (ds ++ rest))
      ≡ (with_sign sign (number (d ∷ ds) % 2 ^ 64), some rest)
unfolding signed_digits
signed_digits-number sign d ds rest (hd, hs) stop = rw (
  hd,
  read_digits-number ((0 * 10 + (d - b'0')) % 2 ^ 64) (0 * 10 + (d - b'0')) ds rest hs stop refl,
)

unsigned_digits-number :
    (d : ℕ) (ds rest : Bytes)
    → All IsDigit (d ∷ ds)
    → EndsDigits rest
    → unsigned_digits (d ∷ (ds ++ rest)) ≡ (number (d ∷ ds) % 2 ^ 64, some rest)
unfolding unsigned_digits
unsigned_digits-number d ds rest (hd, hs) stop = rw (
  hd,
  read_digits-number ((0 * 10 + (d - b'0')) % 2 ^ 64) (0 * 10 + (d - b'0')) ds rest hs stop refl,
)

-- `strtoll` in base 10 reads blanks, a sign and at least one digit, returns the signed number where
-- it is less than 2 ^ 63 in size, and stops at the first byte that is no digit.
pub strtoll-number :
    (blanks : Bytes) (sign : Sign) (d : ℕ) (ds rest : Bytes)
    → All IsBlank blanks
    → All IsDigit (d ∷ ds)
    → EndsDigits rest
    → number (d ∷ ds) < 2 ^ 63
    → let r = strtoll (some (blanks ++ (sign_text sign ++ (d ∷ (ds ++ rest))))) 10 in
      (signed64 r.0 ≡ signed_number sign (number (d ∷ ds))) × (r.1 ≡ some rest)
unfolding strtoll
strtoll-number blanks sign d ds rest hb (hd, hs) stop fits =
    let (b, p, m) = digit_is_other d hd in
    rw
      (
        sign_after_blanks blanks sign (d ∷ (ds ++ rest)) hb b p m,
        signed_digits-number (sign_value sign) d ds rest (hd, hs) stop,
      )
      (signed64-with_sign sign (number (d ∷ ds)) fits, refl)

optional_plus-digit :
    (d : ℕ) (s : Bytes) → IsDigit d → optional_plus (d ∷ s) ≡ unsigned_digits (d ∷ s)
unfolding optional_plus
optional_plus-digit d s h = let (b, p, m) = digit_is_other d h in rw (p, m)

-- `strtoull` in base 10 reads blanks, a plus or none, and at least one digit, returns the number modulo
-- 2 ^ 64, and stops at the first byte that is no digit; at a minus it returns 0 and stops there.
pub strtoull-number :
    (blanks : Bytes) (d : ℕ) (ds rest : Bytes)
    → All IsBlank blanks
    → All IsDigit (d ∷ ds)
    → EndsDigits rest
    → let digits : Bytes = d ∷ (ds ++ rest) in
      (strtoull (some (blanks ++ digits)) 10 ≡ (number (d ∷ ds) % 2 ^ 64, some rest))
      × (strtoull (some (blanks ++ (b'+' ∷ digits))) 10 ≡ (number (d ∷ ds) % 2 ^ 64, some rest))
      × (strtoull (some (blanks ++ (b'-' ∷ digits))) 10 ≡ (0, some (b'-' ∷ digits)))
unfolding strtoull
strtoull-number blanks d ds rest hb (hd, hs) stop =
    let (b, p, m) = digit_is_other d hd in
    let read = unsigned_digits-number d ds rest (hd, hs) stop in
    (
      rw (skip_blanks-append blanks (d ∷ (ds ++ rest)) hb b, optional_plus-digit d (ds ++ rest) hd)
          read,
      rw (skip_blanks-append blanks (b'+' ∷ (d ∷ (ds ++ rest))) hb refl) read,
      rw (skip_blanks-append blanks (b'-' ∷ (d ∷ (ds ++ rest))) hb refl),
    )
