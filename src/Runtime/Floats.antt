-- ===== src/Runtime/Floats.antt =====
-- Floating point, which is not part of the repository: `float` and `double` are the target's IEEE
-- numbers, and src/wasm_runtime_core.cpp and src/dprint_plugin.cpp use these of their operations.
use dprint_clang_format.Base.{ℕ, ◌+◌, ◌*◌, ◌≤◌, ◌^◌, ◌≡◌}
use dprint_clang_format.Base.Int.{ℤ, pos}

pub record Floats : Type 1 where
  pub Double : Type 0
  pub Single : Type 0
  -- The conversion of an integer that is not negative.
  pub of_nat : ℕ → Double
  pub add : Double → Double → Double
  pub sub : Double → Double → Double
  pub mul : Double → Double → Double
  pub negate : Double → Double
  -- The constant 0.1.
  pub tenth : Double
  -- `__builtin_floor`
  pub floor : Double → Double
  pub narrow : Double → Single
  -- `static_cast<int64_t>`
  pub to_int64 : Double → ℤ

-- Integers up to 2 ^ 53 are exact: sums and products of such that stay in the range are exact, and
-- so is the conversion back.
pub record IsExact (F : Floats) : Type 0 where
  pub add_nat : (a b : ℕ) → a + b ≤ 2 ^ 53 → F.add (F.of_nat a) (F.of_nat b) ≡ F.of_nat (a + b)
  pub mul_nat : (a b : ℕ) → a * b ≤ 2 ^ 53 → F.mul (F.of_nat a) (F.of_nat b) ≡ F.of_nat (a * b)
  pub to_int64-of_nat : (n : ℕ) → n ≤ 2 ^ 53 → F.to_int64 (F.of_nat n) ≡ pos n
