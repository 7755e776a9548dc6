-- ===== src/Runtime/Block/Search.antt =====
-- What the reading loops of src/wasm_runtime_core.cpp return.
use dprint_clang_format.Base.{
  ℕ, zero, suc, ◌+◌, ◌<◌, ◌≤◌, ◌≡◌, ◌≢◌, refl, ◌⊎◌, inl, inr, none, some, arith, ◌==◌, Bool-cases,
}
use dprint_clang_format.Base.Int.{pos, sub_ℕ}
use dprint_clang_format.Runtime.Memory.{Mem, SameBlock, FirstAt}
use dprint_clang_format.Runtime.Block.{byte, compare_from, memcmp, find_from, memchr}

-- `j` is the first index, from `i` on, where the two blocks differ.
pub record Differ (m : Mem) (a b i j : ℕ) : Type 0 where
  pub from : i ≤ j
  pub before : (k : ℕ) → i ≤ k → k < j → m (a + k) ≡ m (b + k)
  pub at : m (a + j) ≢ m (b + j)

compare_from_first :
    (k : ℕ) (m : Mem) (a b i : ℕ)
    → ((compare_from k m a b i ≡ pos 0) × ((j : ℕ) → i ≤ j → j < i + k → m (a + j) ≡ m (b + j)))
      ⊎ ((j : ℕ) × (j < i + k)
          × Differ m a b i j
          × (compare_from k m a b i ≡ sub_ℕ (m (a + j)) (m (b + j))))
unfolding compare_from
compare_from_first zero m a b i = inl (refl, λ j p q. absurd (omega arith))
compare_from_first (suc k) m a b i = elim (Bool-cases (m (a + i) == m (b + i))) [
  | inr apart ↦ inr (
    i,
    omega arith,
    record { from = omega arith; before = λ j p q. absurd (omega arith); at = ground arith },
    ground arith,
  )
  | inl equal ↦ elim (compare_from_first k m a b (i + 1)) [
    | inl (z, all) ↦ inl (
      ground arith,
      λ j p q. elim (Bool-cases (i == j)) [
        | inl here ↦ ground arith
        | inr later ↦ all j (ground arith) (omega arith)
      ],
    )
    | inr (j, below, d, e) ↦ inr (
      j,
      omega arith,
      record {
        from = omega (arith, d.from);
        before = λ l p q. elim (Bool-cases (i == l)) [
          | inl here ↦ ground arith
          | inr later ↦ d.before l (ground arith) q
        ];
        at = d.at;
      },
      ground arith,
    )
  ]
]

-- `memcmp` returns 0 where the blocks agree throughout, and otherwise the difference of the bytes at
-- the first index where they do not.
pub memcmp_first :
    (m : Mem) (left right count : ℕ)
    → ((memcmp m left right count ≡ pos 0) × SameBlock m left right count)
      ⊎ ((j : ℕ) × (j < count)
          × Differ m left right 0 j
          × (memcmp m left right count ≡ sub_ℕ (m (left + j)) (m (right + j))))
unfolding memcmp
memcmp_first m left right count = elim (compare_from_first count m left right 0) [
  | inl (z, all) ↦ inl (z, λ k h. all k (omega arith) (omega arith))
  | inr (j, below, d, e) ↦ inr (j, omega arith, d, e)
]

find_from_first :
    (k : ℕ) (m : Mem) (p v i : ℕ)
    → ((find_from k m p v i ≡ none) × ((j : ℕ) → i ≤ j → j < i + k → m (p + j) ≢ byte v))
      ⊎ ((j : ℕ) × (i ≤ j)
          × (j < i + k)
          × ((l : ℕ) → i ≤ l → l < j → m (p + l) ≢ byte v)
          × (m (p + j) ≡ byte v)
          × (find_from k m p v i ≡ some (p + j)))
unfolding find_from
find_from_first zero m p v i = inl (refl, λ j below above. absurd (omega arith))
find_from_first (suc k) m p v i = elim (Bool-cases (m (p + i) == byte v)) [
  | inl found ↦ inr (
    i,
    omega arith,
    omega arith,
    λ l below above. absurd (omega arith),
    ground arith,
    ground arith,
  )
  | inr other ↦ elim (find_from_first k m p v (i + 1)) [
    | inl (z, all) ↦ inl (
      ground arith,
      λ j below above. elim (Bool-cases (i == j)) [
        | inl here ↦ ground arith
        | inr later ↦ all j (ground arith) (omega arith)
      ],
    )
    | inr (j, from, below, before, at, e) ↦ inr (
      j,
      omega arith,
      omega arith,
      λ l lower upper. elim (Bool-cases (i == l)) [
        | inl here ↦ ground arith
        | inr later ↦ before l (ground arith) upper
      ],
      at,
      ground arith,
    )
  ]
]

-- `memchr` returns null where the low byte of `value` is nowhere among the `count` bytes, and
-- otherwise the address of the first.
pub memchr_first :
    (m : Mem) (ptr value count : ℕ)
    → ((memchr m ptr value count ≡ none) × ((j : ℕ) → j < count → m (ptr + j) ≢ byte value))
      ⊎ ((j : ℕ) × (j < count)
          × FirstAt m ptr (byte value) j
          × (memchr m ptr value count ≡ some (ptr + j)))
unfolding memchr
memchr_first m ptr value count = elim (find_from_first count m ptr value 0) [
  | inl (e, all) ↦ inl (e, λ j h. all j (omega arith) (omega arith))
  | inr (j, from, below, before, at, e) ↦
      inr (j, omega arith, record { before = λ k h. before k (omega arith) h; at = at }, e)
]
