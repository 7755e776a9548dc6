-- ===== src/Allocator/Blocks.antt =====
-- Sequences of calls of `wasm_morecore` in src/wasm_allocator.c.
use dprint_clang_format.Base.{
  ◌+◌, ◌^◌, ◌<◌, ◌≡◌, refl, none, [], inr, All, inl, some, ◌∷◌, List, Option, ℕ,
}
use dprint_clang_format.Base.Int.{pos_part, ℤ}
use dprint_clang_format.Allocator.{Heap, Grow, IsGrow, wasm_morecore}
use dprint_clang_format.Allocator.Break.{IsBacked, Advances, wasm_morecore-Advances}

-- A block that a call returned: its address and its size.
abbrev pub Block : Type 0
Block = ℕ × ℕ

keep : Option ℕ → ℤ → List Block → List Block
keep none size blocks = blocks
keep (some p) size blocks = (p, pos_part size) ∷ blocks

-- The calls in order: the blocks that they return, and the heap afterwards.
unfoldable pub serve : Grow → Heap → List ℤ → List Block × Heap
unfolding keep
serve grow h [] = ([], h)
serve grow h (size ∷ sizes) =
    let r = wasm_morecore grow h size in
    let rest = serve grow r.0 sizes in (keep r.1 size rest.0, rest.1)

-- The blocks follow one another from `lo` on, and end at `hi`, with no gap and no overlap.
abbrev pub Consecutive : ℕ → List Block → ℕ → Type 0
Consecutive lo [] hi = lo ≡ hi
Consecutive lo ((p, n) ∷ blocks) hi = (p ≡ lo) × Consecutive (p + n) blocks hi

abbrev pub IsPtrdiff : ℤ → Type 0
IsPtrdiff size = pos_part size < 2 ^ 31

step-Consecutive :
    (h : Heap) (size : ℤ) (r : Heap × Option ℕ) (blocks : List Block) (hi : ℕ)
    → Advances h size r
    → Consecutive r.0.heap_end blocks hi
    → Consecutive h.heap_end (keep r.1 size blocks) hi
unfolding keep
step-Consecutive h size r blocks hi (inl failed) c = rw failed (rw failed at c)
step-Consecutive h size r blocks hi (inr (sign, at, end, grown)) c = rw at (refl, rw end at c)

-- However the machine answers, the blocks that a sequence of calls returns follow one another from the
-- old end of the heap up to the new one, and the heap stays inside the memory throughout.
pub serve-Consecutive :
    (grow : Grow) (sizes : List ℤ) (h : Heap)
    → IsGrow grow
    → IsBacked h
    → All IsPtrdiff sizes
    → Consecutive h.heap_end (serve grow h sizes).0 (serve grow h sizes).1.heap_end
      × IsBacked (serve grow h sizes).1
unfolding serve
serve-Consecutive grow [] h ok b narrow = (refl, b)
serve-Consecutive grow (size ∷ sizes) h ok b (small, narrow) =
    let (b', moved) = wasm_morecore-Advances grow ok h b size small in
    let r = wasm_morecore grow h size in
    let (c, backed) = serve-Consecutive grow sizes r.0 ok b' narrow in
    (
      step-Consecutive h size r (serve grow r.0 sizes).0 (serve grow r.0 sizes).1.heap_end moved c,
      backed,
    )
