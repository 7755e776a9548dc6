-- ===== src/Plugin/Options/Numbers.antt =====
-- Which strings src/dprint_plugin.cpp takes for numbers.
use dprint_clang_format.Base.{
  sym, ap, append-nil, All, Bytes, ℕ, ◌^◌, ◌≤◌, ◌≡◌, refl, ◌∙◌, ◌≢◌, Option, none, some, [], ◌∷◌,
  ◌++◌, arith,
}
use dprint_clang_format.Runtime.Floats.{IsExact}
use dprint_clang_format.Runtime.Number.{strtod, peek, is_digit, is_blank}
use dprint_clang_format.Runtime.Number.Numeral.{IsDigit, IsBlank, number, Sign, sign_text}
use dprint_clang_format.Runtime.Number.Decimal.{EndsLiteral}
use dprint_clang_format.Runtime.Number.Whole.{strtod-number, signed_double}
use dprint_clang_format.Plugin.Platform.{Platform}
use dprint_clang_format.Plugin.Options.{whole_text, parse_number_value}

nothing_ends : EndsLiteral []
unfolding peek is_digit is_blank
nothing_ends = record {
  digit = refl;
  blank = refl;
  plus = refl;
  minus = refl;
  point = refl;
  exponent = refl;
}

append-ne-nil : (xs ys : Bytes) → ys ≢ [] → (xs ++ ys) ≢ []
append-ne-nil [] ys h = h
append-ne-nil (x ∷ xs) ys h = λ e. cc

module _ (P : Platform) where
  whole_text-end :
      (str : Bytes) (r : P.floats.Double × Option Bytes)
      → str ≢ []
      → r.1 ≡ some []
      → whole_text P str r ≡ some r.0
  unfolding whole_text
  whole_text-end [] r some_bytes e = absurd (some_bytes refl)
  whole_text-end (c ∷ str) (value, end) some_bytes e = rw e (ground arith)

  string-number :
      (value : P.Value) (str : Bytes)
      → P.get_as_number value ≡ none
      → P.get_as_string value ≡ some str
      → parse_number_value P value ≡ whole_text P str (strtod P.floats (some str))
  unfolding parse_number_value
  string-number value str n s = rw (n, s)

  -- A string of blanks, a sign and digits gives its number exactly, up to 2 ^ 53, if the target's
  -- arithmetic is exact on such numbers.
  pub parse_number-whole :
      IsExact P.floats
      → (value : P.Value) (blanks : Bytes) (sign : Sign) (d : ℕ) (ds : Bytes)
      → P.get_as_number value ≡ none
      → P.get_as_string value ≡ some (blanks ++ (sign_text sign ++ (d ∷ ds)))
      → All IsBlank blanks
      → All IsDigit (d ∷ ds)
      → number (d ∷ ds) ≤ 2 ^ 53
      → parse_number_value P value ≡ some (signed_double P.floats sign (number (d ∷ ds)))
  parse_number-whole x value blanks sign d ds n s hb hd fits =
      let str = blanks ++ (sign_text sign ++ (d ∷ ds)) in
      let read = strtod-number P.floats x blanks sign d ds [] hb hd nothing_ends fits in
      let same_text : blanks ++ (sign_text sign ++ (d ∷ (ds ++ []))) ≡ str = rw append-nil in
      let result : strtod P.floats (some str)
          ≡ (signed_double P.floats sign (number (d ∷ ds)), some []) =
        ap (λ (t : Bytes). strtod P.floats (some t)) (sym same_text) ∙ read in
      string-number value str n s
      ∙ ap (whole_text P str) result
      ∙ whole_text-end str (signed_double P.floats sign (number (d ∷ ds)), some []) some_bytes refl
    where
      some_bytes : (blanks ++ (sign_text sign ++ (d ∷ ds))) ≢ []
      some_bytes =
          append-ne-nil blanks (sign_text sign ++ (d ∷ ds))
            (append-ne-nil (sign_text sign) (d ∷ ds) (λ e. cc))
