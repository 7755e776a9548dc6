-- ===== src/Runtime/Number/Decimal.antt =====
-- What `strtod` of src/wasm_runtime_core.cpp returns.
use dprint_clang_format.Base.{
  ℕ, ◌≡◌, refl, false, [], ◌∷◌, ◌++◌, Bytes, All, none, some, Option, ◌||◌, ◌==◌, ap, ◌∙◌,
  append_assoc,
}
use dprint_clang_format.Base.Int.{ℤ}
use dprint_clang_format.Runtime.Floats.{Floats}
use dprint_clang_format.Runtime.Number.{
  peek, is_digit, is_blank, whole_digits, fraction_digits, fraction, exponent_part, read_digits,
  decimal, strtod,
}
use dprint_clang_format.Runtime.Number.Numeral.{
  IsDigit, IsBlank, Sign, sign_text, sign_value, EndsDigits, sign_after_blanks, digit_is_other,
  parse_sign-append,
}

-- A number as the grammar of the parser has it: every part but its place may be empty.
pub record Literal : Type 0 where
  pub blanks : Bytes
  pub sign : Sign
  pub whole : Bytes
  -- The digits behind a point.
  pub fraction : Option Bytes
  -- The sign and the digits behind an `e`.
  pub exponent : Option (Sign × Bytes)

abbrev pub fraction_text : Option Bytes → Bytes
fraction_text none = []
fraction_text (some ds) = b'.' ∷ ds

abbrev pub exponent_text : Option (Sign × Bytes) → Bytes
exponent_text none = []
exponent_text (some (sign, ds)) = b'e' ∷ (sign_text sign ++ ds)

abbrev pub literal_text : Literal → Bytes → Bytes
literal_text l rest =
    l.blanks
    ++ (sign_text l.sign
        ++ (l.whole ++ (fraction_text l.fraction ++ (exponent_text l.exponent ++ rest))))

-- Behind a number: no byte that the parser would take for a part of one.
pub record EndsLiteral (s : Bytes) : Type 0 where
  pub digit : is_digit (peek s) ≡ false
  pub blank : is_blank (peek s) ≡ false
  pub plus : (peek s == b'+') ≡ false
  pub minus : (peek s == b'-') ≡ false
  pub point : (peek s == b'.') ≡ false
  pub exponent : (peek s == b'e' || peek s == b'E') ≡ false

abbrev pub FractionDigits : Option Bytes → Type 0
FractionDigits none = Unit {0}
FractionDigits (some ds) = All IsDigit ds

abbrev pub ExponentDigits : Option (Sign × Bytes) → Type 0
ExponentDigits none = Unit {0}
ExponentDigits (some (sign, ds)) = All IsDigit ds

pub record IsLiteral (l : Literal) : Type 0 where
  pub blanks : All IsBlank l.blanks
  pub whole : All IsDigit l.whole
  pub fraction : FractionDigits l.fraction
  pub exponent : ExponentDigits l.exponent

read_digits-rest :
    (w : ℕ) (ds rest : Bytes) (v : ℕ)
    → All IsDigit ds
    → EndsDigits rest
    → (read_digits w v (ds ++ rest)).1 ≡ rest
unfolding read_digits peek
read_digits-rest w [] [] v h stop = refl
read_digits-rest w [] (c ∷ rest) v h stop = rw stop
read_digits-rest w (c ∷ ds) rest v (h, hs) stop = rw h (read_digits-rest w ds rest _ hs stop)

with_rest {ℓ} : {A : Type ℓ} (p : A × Bytes) (s : Bytes) → p.1 ≡ s → p ≡ (p.0, s)
with_rest p s e = λ i. (p.0, e i)

module _ (f : Option Bytes) (e : Option (Sign × Bytes)) (rest : Bytes)
    (end : EndsLiteral rest) where
  exponent_stops :
      EndsDigits (exponent_text e ++ rest) × ((peek (exponent_text e ++ rest) == b'.') ≡ false)
  unfolding peek is_digit
  exponent_stops = by_exponent e
    where
      by_exponent :
          (x : Option (Sign × Bytes))
          → EndsDigits (exponent_text x ++ rest)
            × ((peek (exponent_text x ++ rest) == b'.') ≡ false)
      by_exponent none = (end.digit, end.point)
      by_exponent (some (sign, ds)) = (refl, refl)

  fraction_stops : EndsDigits (fraction_text f ++ (exponent_text e ++ rest))
  unfolding peek is_digit
  fraction_stops = by_fraction f
    where
      by_fraction : (x : Option Bytes) → EndsDigits (fraction_text x ++ (exponent_text e ++ rest))
      by_fraction none = exponent_stops.0
      by_fraction (some ds) = refl

abbrev NoSign : Bytes → Type 0
NoSign s = (is_blank (peek s) ≡ false) × ((peek s == b'+') ≡ false) × ((peek s == b'-') ≡ false)

starts :
    (whole : Bytes) (f : Option Bytes) (e : Option (Sign × Bytes)) (rest : Bytes)
    → EndsLiteral rest
    → All IsDigit whole
    → NoSign (whole ++ (fraction_text f ++ (exponent_text e ++ rest)))
unfolding peek is_blank
starts (c ∷ ds) f e rest end (h, hs) = digit_is_other c h
starts [] (some ds) e rest end h = (refl, refl, refl)
starts [] none (some (sign, ds)) rest end h = (refl, refl, refl)
starts [] none none rest end h = (end.blank, end.plus, end.minus)

module _ (F : Floats) where
  whole_digits-rest :
      (ds rest : Bytes) (v : F.Double)
      → All IsDigit ds
      → EndsDigits rest
      → (whole_digits F v (ds ++ rest)).1 ≡ rest
  unfolding whole_digits peek
  whole_digits-rest [] [] v h stop = refl
  whole_digits-rest [] (c ∷ rest) v h stop = rw stop
  whole_digits-rest (c ∷ ds) rest v (h, hs) stop = rw h (whole_digits-rest ds rest _ hs stop)

  fraction_digits-rest :
      (ds rest : Bytes) (v place : F.Double)
      → All IsDigit ds
      → EndsDigits rest
      → (fraction_digits F v place (ds ++ rest)).1 ≡ rest
  unfolding fraction_digits peek
  fraction_digits-rest [] [] v place h stop = refl
  fraction_digits-rest [] (c ∷ rest) v place h stop = rw stop
  fraction_digits-rest (c ∷ ds) rest v place (h, hs) stop =
      rw h (fraction_digits-rest ds rest _ _ hs stop)

  fraction-rest :
      (v : F.Double) (f : Option Bytes) (rest : Bytes)
      → FractionDigits f
      → EndsDigits rest
      → (peek rest == b'.') ≡ false
      → (fraction F (v, fraction_text f ++ rest)).1 ≡ rest
  unfolding fraction peek
  fraction-rest v none [] h stop point = refl
  fraction-rest v none (c ∷ rest) h stop point = rw point
  fraction-rest v (some ds) rest h stop point = fraction_digits-rest ds rest v F.tenth h stop

  exponent_part-rest :
      (v : F.Double) (e : Option (Sign × Bytes)) (rest : Bytes)
      → ExponentDigits e
      → EndsLiteral rest
      → (exponent_part F (v, exponent_text e ++ rest)).1 ≡ rest
  unfolding exponent_part peek
  exponent_part-rest v none [] h end = refl
  exponent_part-rest v none (c ∷ rest) h end = rw (end.exponent)
  exponent_part-rest v (some (sign, ds)) rest h end =
      let (b, p, m) = starts ds none none rest end h in
      rw (append_assoc, parse_sign-append sign (ds ++ rest) p m)
        (read_digits-rest 32 ds rest 0 h end.digit)

  decimal-rest :
      (sign : ℤ) (whole : Bytes) (f : Option Bytes) (e : Option (Sign × Bytes)) (rest : Bytes)
      → All IsDigit whole
      → FractionDigits f
      → ExponentDigits e
      → EndsLiteral rest
      → (decimal F (sign, whole ++ (fraction_text f ++ (exponent_text e ++ rest)))).1 ≡ some rest
  unfolding decimal
  decimal-rest sign whole f e rest hw hf he end =
      let tail = exponent_text e ++ rest in
      let (digit_stop, point_stop) = exponent_stops f e rest end in
      let zero = F.of_nat 0 in
      let after =
        whole_digits-rest whole (fraction_text f ++ tail) zero hw (fraction_stops f e rest end) in
      let w = (whole_digits F zero (whole ++ (fraction_text f ++ tail))).0 in
      let behind = fraction-rest w f tail hf digit_stop point_stop in
      let v = (fraction F (w, fraction_text f ++ tail)).0 in
      ap (λ (p : F.Double × Bytes). some (exponent_part F (fraction F p)).1) (with_rest _ _ after)
      ∙ ap (λ (p : F.Double × Bytes). some (exponent_part F p).1) (with_rest _ _ behind)
      ∙ ap some (exponent_part-rest v e rest he end)

  -- On every text of the grammar, with or without digits, `strtod` stops exactly behind it.
  pub strtod-rest :
      (l : Literal) (rest : Bytes)
      → IsLiteral l
      → EndsLiteral rest
      → (strtod F (some (literal_text l rest))).1 ≡ some rest
  unfolding strtod
  strtod-rest l rest ok end =
      let after_sign =
        l.whole ++ (fraction_text l.fraction ++ (exponent_text l.exponent ++ rest)) in
      let (b, p, m) = starts l.whole l.fraction l.exponent rest end ok.whole in
      ap (λ (t : ℤ × Bytes). (decimal F t).1)
        (sign_after_blanks l.blanks l.sign after_sign ok.blanks b p m)
      ∙ decimal-rest (sign_value l.sign) l.whole l.fraction l.exponent rest ok.whole ok.fraction
          ok.exponent end
