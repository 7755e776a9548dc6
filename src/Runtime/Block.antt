-- ===== src/Runtime/Block.antt =====
-- `memset`, `memcpy`, `memmove`, `memcmp` and `memchr` of src/wasm_runtime_core.cpp.
-- A loop has the rounds left as its first argument and the index as its last.
pub mod Copy
pub mod Search
use dprint_clang_format.Base.{
  ℕ, zero, suc, ◌+◌, ◌%◌, ◌^◌, Option, none, some, ltb, ◌==◌, if◌then◌else◌,
}
use dprint_clang_format.Base.Int.{ℤ, pos, sub_ℕ}
use dprint_clang_format.Runtime.Memory.{Mem, Ptr, write}

-- The conversion to `unsigned char`.
abbrev pub byte : ℕ → ℕ
byte v = v % 2 ^ 8

fill_up : ℕ → Mem → Ptr → ℕ → ℕ → Mem
fill_up zero m out value i = m
fill_up (suc k) m out value i = fill_up k (write m (out + i) (byte value)) out value (i + 1)

-- `value` is the bit pattern of an `int`.
unfoldable pub memset : Mem → Ptr → ℕ → ℕ → Mem × Ptr
unfolding fill_up
memset m dest value count = (fill_up count m dest value 0, dest)

-- The loop of `memcpy`, and the first of `memmove`.
copy_up : ℕ → Mem → Ptr → Ptr → ℕ → Mem
copy_up zero m out src i = m
copy_up (suc k) m out src i = copy_up k (write m (out + i) (m (src + i))) out src (i + 1)

unfoldable pub memcpy : Mem → Ptr → Ptr → ℕ → Mem × Ptr
unfolding copy_up
memcpy m dest src count = (copy_up count m dest src 0, dest)

-- The second loop of `memmove`: the index falls from `count`.
copy_down : ℕ → Mem → Ptr → Ptr → Mem
copy_down zero m out src = m
copy_down (suc i) m out src = copy_down i (write m (out + i) (m (src + i))) out src

unfoldable pub memmove : Mem → Ptr → Ptr → ℕ → Mem × Ptr
unfolding copy_up copy_down
memmove m dest src count =
    if ltb dest src
    then (copy_up count m dest src 0, dest)
    else if ltb src dest
    then (copy_down count m dest src, dest)
    else (m, dest)

compare_from : ℕ → Mem → Ptr → Ptr → ℕ → ℤ
compare_from zero m a b i = pos 0
compare_from (suc k) m a b i =
    let rest = compare_from k m a b (i + 1) in
    if m (a + i) == m (b + i) then rest else sub_ℕ (m (a + i)) (m (b + i))

unfoldable pub memcmp : Mem → Ptr → Ptr → ℕ → ℤ
unfolding compare_from
memcmp m left right count = compare_from count m left right 0

find_from : ℕ → Mem → Ptr → ℕ → ℕ → Option Ptr
find_from zero m str value i = none
find_from (suc k) m str value i =
    let rest = find_from k m str value (i + 1) in
    if m (str + i) == byte value then some (str + i) else rest

unfoldable pub memchr : Mem → Ptr → ℕ → ℕ → Option Ptr
unfolding find_from
memchr m ptr value count = find_from count m ptr value 0
