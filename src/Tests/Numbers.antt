-- ===== src/Tests/Numbers.antt =====
-- Numbers that src/wasm_runtime_core.cpp reads and computes.
use dprint_clang_format.Base.{All, Bytes, ◌+◌, ◌*◌, ◌%◌, ◌^◌, some, [], ◌∷◌, ◌≡◌, refl, arith}
use dprint_clang_format.Base.Int.{signed64}
use dprint_clang_format.Runtime.Number.{is_blank, is_digit, peek, strtoll, strtoull}
use dprint_clang_format.Runtime.Number.Integer.{signed_number, strtoll-number, strtoull-number}
use dprint_clang_format.Runtime.Number.Numeral.{EndsDigits, IsBlank, IsDigit, minus, number}
use dprint_clang_format.Runtime.Wide.{multi3, multi3-mul}

abbrev digits : Bytes
digits = b'4' ∷ (b'2' ∷ [])

digits-IsDigit : All IsDigit digits
unfolding is_digit
digits-IsDigit = (refl, (refl, tt))

space-IsBlank : All IsBlank (32 ∷ [])
unfolding is_blank
space-IsBlank = (refl, tt)

word_ends : EndsDigits (b'x' ∷ [])
unfolding is_digit peek
word_ends = refl

strtoll-number_example :
    let r = strtoll (some (b' ' ∷ (b'-' ∷ (b'4' ∷ (b'2' ∷ (b'x' ∷ [])))))) 10 in
    (signed64 r.0 ≡ signed_number minus (number digits)) × (r.1 ≡ some (b'x' ∷ []))
strtoll-number_example =
    strtoll-number (32 ∷ []) minus b'4' (b'2' ∷ []) (b'x' ∷ []) space-IsBlank digits-IsDigit
      word_ends (omega arith)

strtoull-number_example :
    (strtoull (some (b' ' ∷ (b'4' ∷ (b'2' ∷ (b'x' ∷ []))))) 10
      ≡ (number digits % 2 ^ 64, some (b'x' ∷ [])))
    × (strtoull (some (b' ' ∷ (b'+' ∷ (b'4' ∷ (b'2' ∷ (b'x' ∷ [])))))) 10
        ≡ (number digits % 2 ^ 64, some (b'x' ∷ [])))
    × (strtoull (some (b' ' ∷ (b'-' ∷ (b'4' ∷ (b'2' ∷ (b'x' ∷ [])))))) 10
        ≡ (0, some (b'-' ∷ (b'4' ∷ (b'2' ∷ (b'x' ∷ []))))))
strtoull-number_example =
    strtoull-number (32 ∷ []) b'4' (b'2' ∷ []) (b'x' ∷ []) space-IsBlank digits-IsDigit word_ends

multi3-mul_example : multi3 (2 ^ 100 + 7) (2 ^ 90 + 3) ≡ (2 ^ 100 + 7) * (2 ^ 90 + 3) % 2 ^ 128
multi3-mul_example = multi3-mul (2 ^ 100 + 7) (2 ^ 90 + 3) (omega arith) (omega arith)
