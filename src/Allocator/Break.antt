-- ===== src/Allocator/Break.antt =====
-- The break of the heap in src/wasm_allocator.c, one call of `wasm_morecore` at a time.
use dprint_clang_format.Base.{
  ℕ, Option, ◌+◌, ◌-◌, ◌*◌, ◌/◌, ◌%◌, ◌^◌, ◌≤◌, ◌<◌, ◌≡◌, none, some, arith, ◌⊎◌,
}
use dprint_clang_format.Base.Int.{pos, negsuc, pos_part, neg_part, ℤ}
use dprint_clang_format.Allocator.{wasm_morecore, Heap, Grow, IsGrow, page_size, extend}
use native.Mathlib.Decide.{dec_lt}

-- The heap ends inside the memory, which has a page at least and 2 ^ 16 pages at most.
pub record IsBacked (h : Heap) : Type 0 where
  pub inside : h.heap_end ≤ h.pages * page_size
  pub addressable : h.heap_end < 2 ^ 32
  pub some_pages : 0 < h.pages
  pub pages : h.pages ≤ 2 ^ 16

-- What a call does: it fails and changes nothing, or the size is not negative, it returns the old end,
-- and the end rises by the size while the memory does not shrink.
abbrev pub Advances : Heap → ℤ → Heap × Option ℕ → Type 0
Advances h size r =
    (r ≡ (h, none))
    ⊎ ((neg_part size ≡ 0)
        × (r.1 ≡ some h.heap_end)
        × (r.0.heap_end ≡ h.heap_end + pos_part size)
        × (h.pages ≤ r.0.pages))

module _ (grow : Grow) (ok : IsGrow grow) (h : Heap) (b : IsBacked h) where
  -- The pages that `memory.grow` is asked for, in both branches of the call.
  extend_lem :
      (end : ℕ)
      → h.heap_end < end
      → end < 2 ^ 32
      → IsBacked (extend grow h end).0
        × ((((extend grow h end).1 ≡ none) × ((extend grow h end).0 ≡ h))
            ⊎ (((extend grow h end).1 ≡ some h.heap_end)
                × ((extend grow h end).0.heap_end ≡ end)
                × (h.pages ≤ (extend grow h end).0.pages)))
  unfolding extend
  extend_lem end above fits =
      ground (arith, ok h.pages (((end + 65536 - 1) % 2 ^ 32 / 65536 + 2 ^ 32 - h.pages) % 2 ^ 32))

  -- A call of `wasm_morecore` with any `ptrdiff_t` keeps the heap inside the memory. It fails and changes
  -- nothing, or returns the old end and raises the end by the size. That is if the machine grows a
  -- memory to 2 ^ 16 pages at most.
  pub wasm_morecore-Advances :
      (size : ℤ)
      → pos_part size < 2 ^ 31
      → IsBacked (wasm_morecore grow h size).0 × Advances h size (wasm_morecore grow h size)
  unfolding wasm_morecore
  wasm_morecore-Advances (negsuc n) narrow = (ground arith, ground arith)
  wasm_morecore-Advances (pos n) narrow = elim (dec_lt 0 n) [
    | no empty ↦ (ground arith, ground arith)
    | yes some_bytes ↦ elim (dec_lt (2 ^ 32 - 1 - n) h.heap_end) [
      | yes over ↦ (ground arith, ground arith)
      | no below ↦ ground (arith, extend_lem (h.heap_end + n) (omega arith) (omega arith))
    ]
  ]
