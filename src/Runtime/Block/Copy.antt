-- ===== src/Runtime/Block/Copy.antt =====
-- What the writing loops of src/wasm_runtime_core.cpp leave in memory.
use dprint_clang_format.Base.{ℕ, zero, suc, ◌+◌, ◌≤◌, ◌≡◌, ◌⊎◌, ap, fun_ext, arith}
use native.Mathlib.Decide.{dec_lt}
use dprint_clang_format.Runtime.Memory.{Mem, Ptr, write, moved, filled}
use dprint_clang_format.Runtime.Block.{byte, fill_up, memset, copy_up, copy_down, memcpy, memmove}

fill_up-filled :
    (k : ℕ) (m : Mem) (out v i : ℕ) (a : Ptr)
    → fill_up k m out v i a ≡ filled m (out + i) (byte v) k a
unfolding fill_up
fill_up-filled zero m out v i a = ground arith
fill_up-filled (suc k) m out v i a =
    ground (arith, fill_up-filled k (write m (out + i) (byte v)) out v (i + 1) a)

-- `memset` sets the `count` bytes from `dest` on to the low byte of `value`, changes no other, and
-- returns `dest`.
pub memset-filled :
    (m : Mem) (dest value count : ℕ)
    → memset m dest value count ≡ (filled m dest (byte value) count, dest)
unfolding memset
memset-filled m dest value count =
    ap (λ (g : Mem). (g, dest))
      (fun_ext (λ a. ground (arith, fill_up-filled count m dest value 0 a)))

copy_up-moved :
    (k : ℕ) (m : Mem) (out src i : ℕ) (a : Ptr)
    → (out ≤ src) ⊎ (src + (i + k) ≤ out)
    → copy_up k m out src i a ≡ moved m (out + i) (src + i) k a
unfolding copy_up
copy_up-moved zero m out src i a apart = ground arith
copy_up-moved (suc k) m out src i a apart =
    ground
      (arith, copy_up-moved k (write m (out + i) (m (src + i))) out src (i + 1) a (omega arith))

copy_down-moved :
    (i : ℕ) (m : Mem) (out src : ℕ) (a : Ptr)
    → src ≤ out
    → copy_down i m out src a ≡ moved m out src i a
unfolding copy_down
copy_down-moved zero m out src a above = ground arith
copy_down-moved (suc i) m out src a above =
    ground (arith, copy_down-moved i (write m (out + i) (m (src + i))) out src a above)

-- `memcpy` carries the block over and changes nothing else, if the source does not begin before the
-- destination and reach into it; it returns `dest`.
pub memcpy-moved :
    (m : Mem) (dest src count : ℕ)
    → (dest ≤ src) ⊎ (src + count ≤ dest)
    → memcpy m dest src count ≡ (moved m dest src count, dest)
unfolding memcpy
memcpy-moved m dest src count apart =
    ap (λ (g : Mem). (g, dest))
      (fun_ext (λ a. ground (arith, copy_up-moved count m dest src 0 a (omega arith))))

memmove_at :
    (m : Mem) (dest src count : ℕ) (a : Ptr)
    → ((memmove m dest src count).0 a ≡ moved m dest src count a)
      × ((memmove m dest src count).1 ≡ dest)
unfolding memmove
memmove_at m dest src count a = elim (dec_lt src dest) [
  | yes below ↦ ground (arith, copy_down-moved count m dest src a (omega arith))
  | no above ↦ ground (arith, copy_up-moved count m dest src 0 a (omega arith))
]

-- `memmove` carries the block over and changes nothing else, however the two blocks overlap, and
-- returns `dest`.
pub memmove-moved :
    (m : Mem) (dest src count : ℕ) → memmove m dest src count ≡ (moved m dest src count, dest)
memmove-moved m dest src count =
    λ i. (λ a. (memmove_at m dest src count a).0 i, (memmove_at m dest src count 0).1 i)
