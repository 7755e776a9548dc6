-- ===== src/Runtime/Cstring/Length.antt =====
-- `strlen`, `strnlen` and `strchr` of src/wasm_runtime_core.cpp on a C string.
use dprint_clang_format.Base.{
  ℕ, zero, suc, ◌+◌, ◌<◌, ◌≤◌, ◌≡◌, ◌≢◌, ◌⊎◌, inl, inr, none, some, arith, ◌==◌, Bool-cases, min,
  done, false,
}
use dprint_clang_format.Runtime.Memory.{Mem, FirstAt, IsCstring}
use dprint_clang_format.Runtime.Block.{byte}
use dprint_clang_format.Runtime.Cstring.{
  strlen_loop, strlen, strnlen_loop, strnlen, strchr_loop, strchr,
}

strlen_loop-done :
    (f : ℕ) (m : Mem) (p i n : ℕ)
    → IsCstring m p n
    → i ≤ n
    → n < i + f
    → strlen_loop f m p i ≡ done n
unfolding strlen_loop
strlen_loop-done zero m p i n s below enough = absurd (omega arith)
strlen_loop-done (suc f) m p i n s below enough = elim (Bool-cases (i == n)) [
  | inl here ↦ ground (arith, s.at)
  | inr more ↦ ground (
    arith,
    s.before i (ground arith),
    strlen_loop-done f m p (i + 1) n s (ground arith) (omega arith),
  )
]

-- `strlen` returns the length of a C string, given more rounds than it is long.
pub strlen-done :
    (fuel : ℕ) (m : Mem) (p n : ℕ) → IsCstring m p n → n < fuel → strlen fuel m p ≡ done n
unfolding strlen
strlen-done fuel m p n s enough = strlen_loop-done fuel m p 0 n s (omega arith) (omega arith)

strnlen_loop-min :
    (k : ℕ) (m : Mem) (p i n : ℕ) → IsCstring m p n → i ≤ n → strnlen_loop k m p i ≡ min n (i + k)
unfolding strnlen_loop
strnlen_loop-min zero m p i n s below = omega arith
strnlen_loop-min (suc k) m p i n s below = elim (Bool-cases (i == n)) [
  | inl here ↦ ground (arith, s.at)
  | inr more ↦
      ground (arith, s.before i (ground arith), strnlen_loop-min k m p (i + 1) n s (ground arith))
]

-- `strnlen` returns the length of a C string, or the bound where that is less.
pub strnlen-min :
    (m : Mem) (p n max_len : ℕ) → IsCstring m p n → strnlen m p max_len ≡ min n max_len
unfolding strnlen
strnlen-min m p n max_len s = omega (arith, strnlen_loop-min max_len m p 0 n s (omega arith))

strchr_loop_first :
    (f : ℕ) (m : Mem) (p v i n : ℕ)
    → IsCstring m p n
    → i ≤ n
    → n < i + f
    → ((k : ℕ) → k < i → m (p + k) ≢ byte v)
    → ((strchr_loop f m p v i ≡ done none) × ((j : ℕ) → j ≤ n → m (p + j) ≢ byte v))
      ⊎ ((j : ℕ) × (j ≤ n) × FirstAt m p (byte v) j × (strchr_loop f m p v i ≡ done (some (p + j))))
unfolding strchr_loop
strchr_loop_first zero m p v i n s below enough none_yet = absurd (omega arith)
strchr_loop_first (suc f) m p v i n s below enough none_yet =
    elim (Bool-cases (m (p + i) == byte v)) [
      | inl found ↦ inr (i, below, record { before = none_yet; at = ground arith }, ground arith)
      | inr other ↦
          let so_far : (k : ℕ) → k < i + 1 → m (p + k) ≢ byte v = λ k h. next k other h in
          elim (Bool-cases (m (p + i) == 0)) [
            | inl ends ↦
                let last : i ≡ n = end (ground arith) in
                inl (ground arith, λ j h. so_far j (omega arith))
            | inr more ↦
                let rest =
                  strchr_loop_first f m p v (i + 1) n s (go_on more) (omega arith) so_far in
                elim rest [
                  | inl (e, all) ↦ inl (ground arith, all)
                  | inr (j, h, first, e) ↦ inr (j, h, first, ground arith)
                ]
          ]
    ]
  where
    next : (k : ℕ) → (m (p + i) == byte v) ≡ false → k < i + 1 → m (p + k) ≢ byte v
    next k other h = elim (Bool-cases (k == i)) [
      | inl here ↦ ground arith
      | inr earlier ↦ none_yet k (ground arith)
    ]

    end : m (p + i) ≡ 0 → i ≡ n
    end z = elim (Bool-cases (i == n)) [
      | inl here ↦ ground arith
      | inr more ↦ absurd (s.before i (ground arith) z)
    ]

    go_on : (m (p + i) == 0) ≡ false → i + 1 ≤ n
    go_on more = elim (Bool-cases (i == n)) [
      | inl here ↦ absurd (ground (arith, s.at))
      | inr other ↦ ground arith
    ]

-- `strchr` on a C string, given more rounds than it is long, returns the address of the first byte
-- that is the low byte of `value`, the NUL included, and null where there is none.
pub strchr_first :
    (fuel : ℕ) (m : Mem) (p v n : ℕ)
    → IsCstring m p n
    → n < fuel
    → ((strchr fuel m p v ≡ done none) × ((j : ℕ) → j ≤ n → m (p + j) ≢ byte v))
      ⊎ ((j : ℕ) × (j ≤ n) × FirstAt m p (byte v) j × (strchr fuel m p v ≡ done (some (p + j))))
unfolding strchr
strchr_first fuel m p v n s enough =
    strchr_loop_first fuel m p v 0 n s (omega arith) (omega arith) (λ k h. absurd (omega arith))
