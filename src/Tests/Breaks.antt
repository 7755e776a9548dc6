-- ===== src/Tests/Breaks.antt =====
-- Calls of `wasm_morecore` in src/wasm_allocator.c.
use dprint_clang_format.Base.{leb, ◌+◌, List, [], ◌∷◌, arith}
use dprint_clang_format.Allocator.Break.{Advances, IsBacked, wasm_morecore-Advances}
use dprint_clang_format.Base.Int.{ℤ, pos, negsuc}
use dprint_clang_format.Allocator.{Grow, Heap, IsGrow, wasm_morecore}
use dprint_clang_format.Allocator.Blocks.{Consecutive, serve, serve-Consecutive}

-- A machine that grows a memory to 16 pages at most.
abbrev small_machine : Grow
small_machine pages delta = leb (pages + delta) 16

small_machine-IsGrow : IsGrow small_machine
small_machine-IsGrow pages delta e = ground arith

abbrev one_page : Heap
one_page = record { heap_end = 1024; pages = 1 }

one_page-IsBacked : IsBacked one_page
one_page-IsBacked = record {
  inside = omega arith;
  addressable = omega arith;
  some_pages = omega arith;
  pages = omega arith;
}

wasm_morecore-Advances_example :
    IsBacked (wasm_morecore small_machine one_page (pos 70000)).0
    × Advances one_page (pos 70000) (wasm_morecore small_machine one_page (pos 70000))
wasm_morecore-Advances_example =
    wasm_morecore-Advances small_machine small_machine-IsGrow one_page one_page-IsBacked (pos 70000)
      (omega arith)

-- The second and the third call fail.
abbrev calls : List ℤ
calls = pos 70000 ∷ (negsuc 4 ∷ (pos 2000000 ∷ (pos 16 ∷ [])))

serve-Consecutive_example :
    Consecutive 1024
      (serve small_machine one_page calls).0
      (serve small_machine one_page calls).1.heap_end
    × IsBacked (serve small_machine one_page calls).1
serve-Consecutive_example =
    serve-Consecutive small_machine calls one_page small_machine-IsGrow one_page-IsBacked
      (omega arith, (omega arith, (omega arith, (omega arith, tt))))
