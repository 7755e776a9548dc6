-- ===== src/Runtime/Random.antt =====
-- `srand` and `rand` of src/wasm_runtime_core.cpp. The state is the static `rand_state`, a word of 32
-- bits, 1 at the start.
use dprint_clang_format.Base.{
  ap, ◌↔◌, ℕ, ◌+◌, ◌*◌, ◌/◌, ◌%◌, ◌^◌, ◌<◌, ◌≡◌, arith, ◌==◌, if◌then◌else◌,
}
use Prim.Native.Nat.{bit_and}
use dprint_clang_format.Base.Bits.{bit_and-low}

abbrev pub rand_state : ℕ
rand_state = 1

unfoldable pub srand : ℕ → ℕ
srand seed = if seed == 0 then 1 else seed

advance : ℕ → ℕ
advance state = (state * 1103515245 + 12345) % 2 ^ 32

-- The result, and the new state.
unfoldable pub rand : ℕ → ℕ × ℕ
unfolding advance
rand state = let next = advance state in (bit_and (next / 2 ^ 16) 0x7fff, next)

-- `rand` returns bits 16 to 30 of the new state, so a number below 2 ^ 15. The new state is a word of
-- 32 bits, and two different words never lead to the same one.
pub rand_step :
    (s t : ℕ)
    → s < 2 ^ 32
    → t < 2 ^ 32
    → ((rand s).0 ≡ (rand s).1 / 2 ^ 16 % 2 ^ 15)
      × ((rand s).0 < 2 ^ 15)
      × ((rand s).1 < 2 ^ 32)
      × (((rand s).1 ≡ (rand t).1) ↔ (s ≡ t))
unfolding rand
rand_step s t p q = (
  bit_and-low 15 (advance s / 2 ^ 16),
  omega (arith, bit_and-low 15 (advance s / 2 ^ 16)),
  omega arith,
  (λ e. omega arith, λ e. ap (λ (u : ℕ). (rand u).1) e),
)
