-- ===== src/Runtime/Number/Whole.antt =====
-- The value that `strtod` of src/wasm_runtime_core.cpp gives to a whole number.
use dprint_clang_format.Base.{
  ℕ, ◌+◌, ◌-◌, ◌*◌, ◌^◌, ◌≤◌, ◌≡◌, refl, [], ◌∷◌, ◌++◌, Bytes, arith, All, some, ap, ◌∙◌,
}
use native.Mathlib.Nat.{le_trans}
use dprint_clang_format.Runtime.Floats.{Floats, IsExact}
use dprint_clang_format.Runtime.Number.{
  peek, whole_digits, fraction, exponent_part, signed_result, decimal, strtod,
}
use dprint_clang_format.Runtime.Number.Numeral.{
  IsDigit, IsBlank, number_from, number, Sign, unsigned, plus, minus, sign_text, sign_value,
  EndsDigits, sign_after_blanks, digit_is_other,
}
use dprint_clang_format.Runtime.Number.Decimal.{EndsLiteral}

le-number_from : (ds : Bytes) (u : ℕ) → u ≤ number_from u ds
le-number_from [] u = omega arith
le-number_from (c ∷ ds) u = omega (arith, le-number_from ds (u * 10 + (c - b'0')))

module _ (F : Floats) where
  abbrev pub signed_double : Sign → ℕ → F.Double
  signed_double minus n = F.negate (F.of_nat n)
  signed_double _ n = F.of_nat n

module _ (F : Floats) (x : IsExact F) where
  digit_step :
      (u c : ℕ)
      → u * 10 + (c - b'0') ≤ 2 ^ 53
      → F.add (F.mul (F.of_nat u) (F.of_nat 10)) (F.of_nat (c - b'0'))
        ≡ F.of_nat (u * 10 + (c - b'0'))
  digit_step u c h =
      ap (λ (t : F.Double). F.add t (F.of_nat (c - b'0'))) (x.mul_nat u 10 (omega arith))
      ∙ x.add_nat (u * 10) (c - b'0') h

  whole_digits-number :
      (ds rest : Bytes) (u : ℕ)
      → All IsDigit ds
      → EndsDigits rest
      → number_from u ds ≤ 2 ^ 53
      → whole_digits F (F.of_nat u) (ds ++ rest) ≡ (F.of_nat (number_from u ds), rest)
  unfolding whole_digits peek
  whole_digits-number [] [] u h stop fits = refl
  whole_digits-number [] (c ∷ rest) u h stop fits = rw stop
  whole_digits-number (c ∷ ds) rest u (h, hs) stop fits =
      let v = u * 10 + (c - b'0') in
      rw (h, digit_step u c (le_trans (le-number_from ds v) fits))
        (whole_digits-number ds rest v hs stop fits)

  no_more :
      (v : F.Double) (rest : Bytes)
      → EndsLiteral rest
      → exponent_part F (fraction F (v, rest)) ≡ (v, rest)
  unfolding exponent_part fraction peek
  no_more v [] end = refl
  no_more v (c ∷ rest) end = rw (end.point, end.exponent)

  signed_result-double :
      (sign : Sign) (n : ℕ) (rest : Bytes)
      → signed_result F (sign_value sign) (F.of_nat n, rest) ≡ (signed_double F sign n, some rest)
  unfolding signed_result
  signed_result-double unsigned n rest = refl
  signed_result-double plus n rest = refl
  signed_result-double minus n rest = refl

  pub strtod-number :
      (blanks : Bytes) (sign : Sign) (d : ℕ) (ds rest : Bytes)
      → All IsBlank blanks
      → All IsDigit (d ∷ ds)
      → EndsLiteral rest
      → number (d ∷ ds) ≤ 2 ^ 53
      → strtod F (some (blanks ++ (sign_text sign ++ (d ∷ (ds ++ rest)))))
        ≡ (signed_double F sign (number (d ∷ ds)), some rest)
  unfolding strtod peek
  strtod-number blanks sign d ds rest hb (hd, hs) end fits =
      let (b, p, m) = digit_is_other d hd in
      ap (decimal F) (sign_after_blanks blanks sign (d ∷ (ds ++ rest)) hb b p m)
      ∙ ap
          (λ (t : F.Double × Bytes).
            signed_result F (sign_value sign) (exponent_part F (fraction F t)))
          (whole_digits-number (d ∷ ds) rest 0 (hd, hs) end.digit fits)
      ∙ ap (signed_result F (sign_value sign)) (no_more (F.of_nat (number (d ∷ ds))) rest end)
      ∙ signed_result-double sign (number (d ∷ ds)) rest
