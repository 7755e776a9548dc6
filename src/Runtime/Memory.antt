-- ===== src/Runtime/Memory.antt =====
-- The linear memory of a wasm32 module, as `src/wasm_runtime_core.cpp` reads and writes it: a byte
-- (a number below 256) at every address. A block of an object lies inside the address space, so
-- `pointer + index` is the sum of the two numbers.
use native.Mathlib.Decide.{dec_lt}
use dprint_clang_format.Base.{
  ℕ, ◌+◌, ◌-◌, ◌<◌, ◌≡◌, ◌≢◌, Bool, ◌&&◌, ltb, leb, ◌==◌, if◌then◌else◌, arith,
}

abbrev pub Mem : Type 0
Mem = ℕ → ℕ

abbrev pub Ptr : Type 0
Ptr = ℕ

abbrev pub write : Mem → Ptr → ℕ → Mem
write m p v a = if a == p then v else m a

-- `a` is one of the `count` addresses from `start` on.
abbrev pub inside : Ptr → ℕ → Ptr → Bool
inside start count a = leb start a && ltb a (start + count)

-- The memory in which the block from `dest` on holds what the block from `src` on held in `m`.
abbrev pub moved : Mem → Ptr → Ptr → ℕ → Mem
moved m dest src count a = if inside dest count a then m (src + (a - dest)) else m a

abbrev pub filled : Mem → Ptr → ℕ → ℕ → Mem
filled m dest v count a = if inside dest count a then v else m a

abbrev pub SameBlock : Mem → Ptr → Ptr → ℕ → Type 0
SameBlock m left right count = (k : ℕ) → k < count → m (left + k) ≡ m (right + k)

-- `n` is the first index from `p` on at which the memory holds `v`.
pub record FirstAt (m : Mem) (p : Ptr) (v n : ℕ) : Type 0 where
  pub before : (k : ℕ) → k < n → m (p + k) ≢ v
  pub at : m (p + n) ≡ v

-- A C string of `n` bytes, its NUL not counted.
abbrev pub IsCstring : Mem → Ptr → ℕ → Type 0
IsCstring m p n = FirstAt m p 0 n

pub FirstAt-unique : (m : Mem) (p v i j : ℕ) → FirstAt m p v i → FirstAt m p v j → i ≡ j
FirstAt-unique m p v i j s t = elim (dec_lt i j) [
  | yes below ↦ absurd (t.before i below s.at)
  | no above ↦ elim (dec_lt j i) [
    | yes below ↦ absurd (s.before j below t.at)
    | no equal ↦ omega arith
  ]
]
