-- ===== src/Base/Bits.antt =====
-- `|` and `&` on fields that do not overlap, as sums and remainders.
use Prim.Native.Nat.{
  ℕ, zero, suc, ◌+◌, ◌*◌, ◌/◌, ◌%◌, ◌≤◌, ◌<◌, ◌^◌, ◌-◌, min, max, digits, bitwise, bit_and, bit_or,
  bit_and-bitwise, bit_or-bitwise,
}
use mathlib.Core.Path.{sym, ◌∙◌, ◌≡◌, refl, ap}
use native.Mathlib.Omega.{arith}
use native.Mathlib.Nat.{div-div-eq-div-mul, pow-suc, one-le-pow}

-- `digits` does not depend on fuel that is at least the first number.
module _ (z : ℕ → ℕ) (f : ℕ → ℕ → ℕ) where
  digits_enough : (m n a b : ℕ) → a ≤ m → a ≤ n → digits z f m a b ≡ digits z f n a b
  digits_enough zero zero zero b p q = refl
  digits_enough zero (suc n) zero b p q = refl
  digits_enough (suc m) zero zero b p q = refl
  digits_enough (suc m) (suc n) zero b p q = refl
  digits_enough zero n (suc a) b p q = absurd (omega arith)
  digits_enough (suc m) zero (suc a) b p q = absurd (omega arith)
  digits_enough (suc m) (suc n) (suc a) b p q =
      ap (λ (t : ℕ). t * 2 + f (suc a % 2) (b % 2))
        (digits_enough m n (suc a / 2) (b / 2) (omega arith) (omega arith))

  low_digit :
      (a b : ℕ)
      → bitwise z f (suc a) b ≡ bitwise z f (suc a / 2) (b / 2) * 2 + f (suc a % 2) (b % 2)
  low_digit a b =
      ap (λ (t : ℕ). t * 2 + f (suc a % 2) (b % 2))
        (digits_enough a (suc a / 2) (suc a / 2) (b / 2) (omega arith) (omega arith))

or_digit : (a b : ℕ) → bit_or a b ≡ bit_or (a / 2) (b / 2) * 2 + max (a % 2) (b % 2)
or_digit zero b = omega (arith, bit_or-bitwise 0 b, bit_or-bitwise 0 (b / 2))
or_digit (suc a) b = omega (
  arith,
  bit_or-bitwise (suc a) b,
  bit_or-bitwise (suc a / 2) (b / 2),
  low_digit (λ y. y) max a b,
)

and_digit : (a b : ℕ) → bit_and a b ≡ bit_and (a / 2) (b / 2) * 2 + min (a % 2) (b % 2)
and_digit zero b = omega (arith, bit_and-bitwise 0 b, bit_and-bitwise 0 (b / 2))
and_digit (suc a) b = omega (
  arith,
  bit_and-bitwise (suc a) b,
  bit_and-bitwise (suc a / 2) (b / 2),
  low_digit (λ y. zero) min a b,
)

or_nothing : (n a : ℕ) → a ≤ n → bit_or a 0 ≡ a
or_nothing n zero h = refl
or_nothing zero (suc a) h = absurd (omega arith)
or_nothing (suc n) (suc a) h =
    omega (arith, or_digit (suc a) 0, or_nothing n (suc a / 2) (omega arith))

and_nothing : (n a : ℕ) → a ≤ n → bit_and a 0 ≡ 0
and_nothing n zero h = refl
and_nothing zero (suc a) h = absurd (omega arith)
and_nothing (suc n) (suc a) h =
    omega (arith, and_digit (suc a) 0, and_nothing n (suc a / 2) (omega arith))

double_pow : (q w : ℕ) → q * 2 ^ suc w ≡ q * 2 ^ w * 2
double_pow q w = omega (arith, ap (λ (t : ℕ). q * t) (pow-suc 2 w))

-- A high field `q` over a low field `r` of `w` bits.
pub bit_or-high_low : (w q r : ℕ) → r < 2 ^ w → bit_or (q * 2 ^ w) r ≡ q * 2 ^ w + r
bit_or-high_low zero q r h = ground (arith, or_nothing q q (omega arith))
bit_or-high_low (suc w) q r h = ground (
  arith,
  double_pow q w,
  pow-suc 2 w,
  or_digit (q * 2 ^ suc w) r,
  bit_or-high_low w q (r / 2) (omega (arith, pow-suc 2 w)),
)

and_field : (w q r : ℕ) → r < 2 ^ w → bit_and (q * 2 ^ w + r) (2 ^ w - 1) ≡ r
and_field zero q r h = ground (arith, and_nothing (q * 2 ^ 0 + r) (q * 2 ^ 0 + r) (omega arith))
and_field (suc w) q r h = ground (
  arith,
  double_pow q w,
  pow-suc 2 w,
  one-le-pow w 2,
  and_digit (q * 2 ^ suc w + r) (2 ^ suc w - 1),
  and_field w q (r / 2) (omega (arith, pow-suc 2 w)),
)

-- The mask of the low `w` bits takes the remainder.
pub bit_and-low : (w a : ℕ) → bit_and a (2 ^ w - 1) ≡ a % 2 ^ w
bit_and-low w a = ground (arith, one-le-pow w 2, and_field w (a / 2 ^ w) (a % 2 ^ w))

and_double : (a b : ℕ) → bit_and a (b * 2) ≡ bit_and (a / 2) b * 2
and_double a b = ground (arith, and_digit a (b * 2))

pow_suc_left : (w : ℕ) → 2 ^ suc w ≡ 2 * 2 ^ w
pow_suc_left w = omega (arith, pow-suc 2 w)

-- A mask that is shifted takes the field above the low `w` bits.
pub bit_and-shifted : (w a b : ℕ) → bit_and a (b * 2 ^ w) ≡ bit_and (a / 2 ^ w) b * 2 ^ w
bit_and-shifted zero a b = ground arith
bit_and-shifted (suc w) a b =
    let masked = bit_and-shifted w (a / 2) b in
    let halves = div-div-eq-div-mul a 2 (2 ^ w) in
    ap (bit_and a) (double_pow b w)
    ∙ and_double a (b * 2 ^ w)
    ∙ omega (
      arith,
      masked,
      double_pow (bit_and (a / 2 ^ suc w) b) w,
      ap (λ (t : ℕ). bit_and t b * 2 ^ w) (halves ∙ ap (λ (t : ℕ). a / t) (sym (pow_suc_left w))),
    )
