-- ===== src/Runtime/Wide.antt =====
-- `umul64wide` and `__multi3` of src/wasm_runtime_core.cpp: products of 64-bit and 128-bit words.
-- A word is the number that it stands for; an `__int128` is its bit pattern.
use Prim.Native.Nat.{bit_or}
use native.Mathlib.Nat.{mul-le-mul, le-pred_of_lt}
use dprint_clang_format.Base.{◌≤◌, ◌-◌, ℕ, ◌+◌, ◌*◌, ◌/◌, ◌%◌, ◌^◌, ◌<◌, ◌≡◌, arith, ◌∙◌}
use dprint_clang_format.Base.Bits.{bit_or-high_low}

abbrev u32 : ℕ → ℕ
u32 n = n % 2 ^ 32

abbrev u64 : ℕ → ℕ
u64 n = n % 2 ^ 64

abbrev u128 : ℕ → ℕ
u128 n = n % 2 ^ 128

-- The middle column of the product of two words, in halves of 32 bits.
middle : ℕ → ℕ → ℕ → ℕ
middle product_0 product_1 product_2 = u64 (product_0 / 2 ^ 32 + u32 product_1 + u32 product_2)

combine : ℕ → ℕ → ℕ → ℕ → ℕ × ℕ
unfolding middle
combine product_0 product_1 product_2 product_3 =
    let mid = middle product_0 product_1 product_2 in
    (
      u64 (product_3 + product_1 / 2 ^ 32 + product_2 / 2 ^ 32 + mid / 2 ^ 32),
      bit_or (u64 (mid * 2 ^ 32)) (u32 product_0),
    )

-- `(high, low)`
unfoldable pub umul64wide : ℕ → ℕ → ℕ × ℕ
unfolding combine
umul64wide left right =
    let left_low = u32 left in
    let left_high = left / 2 ^ 32 in
    let right_low = u32 right in
    let right_high = right / 2 ^ 32 in
    combine (u64 (left_low * right_low)) (u64 (left_low * right_high)) (u64 (left_high * right_low))
      (u64 (left_high * right_high))

join : ℕ × ℕ → ℕ → ℕ
join low_product cross = bit_or (u64 (low_product.0 + cross) * 2 ^ 64) low_product.1

unfoldable pub multi3 : ℕ → ℕ → ℕ
unfolding join
multi3 left right =
    let left_low = u64 left in
    let left_high = u64 (left / 2 ^ 64) in
    let right_low = u64 right in
    let right_high = u64 (right / 2 ^ 64) in
    join (umul64wide left_low right_low) (u64 (left_high * right_low) + u64 (left_low * right_high))

product_fits : (a b : ℕ) → a < 2 ^ 32 → b < 2 ^ 32 → a * b ≤ (2 ^ 32 - 1) * (2 ^ 32 - 1)
product_fits a b p q = mul-le-mul (le-pred_of_lt p) (le-pred_of_lt q)

combine_sum :
    (p0 p1 p2 p3 : ℕ)
    → p0 < 2 ^ 64
    → p1 < 2 ^ 64
    → p2 < 2 ^ 64
    → p3 + p1 / 2 ^ 32 + p2 / 2 ^ 32 + 2 < 2 ^ 64
    → (combine p0 p1 p2 p3).0 * 2 ^ 64 + (combine p0 p1 p2 p3).1
      ≡ p3 * 2 ^ 64 + (p1 + p2) * 2 ^ 32 + p0
unfolding combine
combine_sum p0 p1 p2 p3 a b c d =
    ground (arith, bit_or-high_low 32 (middle p0 p1 p2 % 2 ^ 32) (p0 % 2 ^ 32) (omega arith))

-- A product of two numbers in halves of 32 bits, or of 64.
expand :
    (w a b h l h' l' : ℕ)
    → a ≡ h * w + l
    → b ≡ h' * w + l'
    → a * b ≡ h * h' * (w * w) + (l * h' + h * l') * w + l * l'
expand w a b h l h' l' p q = rw (p, q) (omega arith)

recombine :
    (left right h l h' l' : ℕ)
    → left ≡ h * 2 ^ 32 + l
    → right ≡ h' * 2 ^ 32 + l'
    → l * l' ≤ (2 ^ 32 - 1) * (2 ^ 32 - 1)
    → l * h' ≤ (2 ^ 32 - 1) * (2 ^ 32 - 1)
    → h * l' ≤ (2 ^ 32 - 1) * (2 ^ 32 - 1)
    → h * h' ≤ (2 ^ 32 - 1) * (2 ^ 32 - 1)
    → h * h' % 2 ^ 64 * 2 ^ 64 + (l * h' % 2 ^ 64 + h * l' % 2 ^ 64) * 2 ^ 32 + l * l' % 2 ^ 64
      ≡ left * right
recombine left right h l h' l' p q ac ad bc bd =
    omega (arith, expand (2 ^ 32) left right h l h' l' p q)

-- The two words that `umul64wide` stores are the product of its arguments.
pub umul64wide-mul :
    (left right : ℕ)
    → left < 2 ^ 64
    → right < 2 ^ 64
    → (umul64wide left right).0 * 2 ^ 64 + (umul64wide left right).1 ≡ left * right
unfolding umul64wide
umul64wide-mul left right p q =
    let a = left % 2 ^ 32 in
    let b = left / 2 ^ 32 in
    let c = right % 2 ^ 32 in
    let d = right / 2 ^ 32 in
    let ac = product_fits a c (omega arith) (omega arith) in
    let ad = product_fits a d (omega arith) (omega arith) in
    let bc = product_fits b c (omega arith) (omega arith) in
    let bd = product_fits b d (omega arith) (omega arith) in
    combine_sum (a * c % 2 ^ 64) (a * d % 2 ^ 64) (b * c % 2 ^ 64) (b * d % 2 ^ 64) (omega arith)
      (omega arith) (omega arith) (omega arith)
    ∙ recombine left right b a d c (omega arith) (omega arith) ac ad bc bd

umul64wide-lt :
    (left right : ℕ) → ((umul64wide left right).0 < 2 ^ 64) × ((umul64wide left right).1 < 2 ^ 64)
unfolding umul64wide
umul64wide-lt left right =
    let p0 = left % 2 ^ 32 * (right % 2 ^ 32) % 2 ^ 64 in
    let p1 = left % 2 ^ 32 * (right / 2 ^ 32) % 2 ^ 64 in
    let p2 = left / 2 ^ 32 * (right % 2 ^ 32) % 2 ^ 64 in
    ground (arith, bit_or-high_low 32 (middle p0 p1 p2 % 2 ^ 32) (p0 % 2 ^ 32) (omega arith))

-- `__multi3` returns the product of its arguments modulo 2 ^ 128.
pub multi3-mul :
    (left right : ℕ) → left < 2 ^ 128 → right < 2 ^ 128 → multi3 left right ≡ left * right % 2 ^ 128
unfolding multi3
multi3-mul left right p q =
    let a = left % 2 ^ 64 in
    let b = left / 2 ^ 64 in
    let c = right % 2 ^ 64 in
    let d = right / 2 ^ 64 in
    let fits = umul64wide-lt a c in
    ground (
      arith,
      bit_or-high_low 64 (((umul64wide a c).0 + (b * c % 2 ^ 64 + a * d % 2 ^ 64)) % 2 ^ 64)
          (umul64wide a c).1 fits.1,
      umul64wide-mul a c (omega arith) (omega arith),
      expand (2 ^ 64) left right b a d c (omega arith) (omega arith),
    )
