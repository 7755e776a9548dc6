-- ===== src/Allocator.antt =====
-- src/wasm_allocator.c: `wasm_morecore`, from which the allocator takes its memory.
-- Addresses and sizes are words of 32 bits, as `uintptr_t` on wasm32.
pub mod Break
pub mod Blocks
use dprint_clang_format.Base.{
  ℕ, ◌+◌, ◌-◌, ◌*◌, ◌/◌, ◌%◌, ◌^◌, ◌≤◌, ◌<◌, ◌≡◌, Bool, true, false, Option, none, some, ltb, ◌==◌,
  if◌then◌else◌,
}
use dprint_clang_format.Base.Int.{ℤ, pos, negsuc, ltb_ℤ, pos_part}

-- `wasm_heap_end`, and the size of the memory in pages, which `__builtin_wasm_memory_size` reads.
pub record Heap : Type 0 where
  pub heap_end : ℕ
  pub pages : ℕ

abbrev pub page_size : ℕ
page_size = 65536

abbrev pub word : ℕ → ℕ
word n = n % 2 ^ 32

-- `memory.grow`: whether the machine grows a memory of so many pages by so many more.
abbrev pub Grow : Type 0
Grow = ℕ → ℕ → Bool

-- A memory of 32-bit addresses has at most 2 ^ 16 pages: what would exceed that is refused.
abbrev pub IsGrow : Grow → Type 0
IsGrow grow = (pages delta : ℕ) → grow pages delta ≡ true → pages + delta ≤ 2 ^ 16

-- The state afterwards, and the address that is returned; `none` is `(void *)-1`.
advance_to : Heap → ℕ → Heap × Option ℕ
advance_to h requested_end = (record h { heap_end = requested_end }, some h.heap_end)

grow_and_advance : Grow → Heap → ℕ → ℕ → Heap × Option ℕ
unfolding advance_to
grow_and_advance grow h requested_end grow_pages =
    if grow h.pages grow_pages
    then advance_to (record h { pages = h.pages + grow_pages }) requested_end
    else (h, none)

-- From `uintptr_t current_pages` on, with `size > 0` and the sum in range.
unfoldable pub extend : Grow → Heap → ℕ → Heap × Option ℕ
unfolding advance_to grow_and_advance
extend grow h requested_end =
    let current_end = word (h.pages * page_size) in
    let required_pages = word (requested_end + page_size - 1) / page_size in
    if ltb current_end requested_end
    then grow_and_advance grow h requested_end (word (required_pages + 2 ^ 32 - h.pages))
    else advance_to h requested_end

is_zero : ℤ → Bool
is_zero (pos n) = n == 0
is_zero (negsuc n) = false

-- `size` is a `ptrdiff_t`.
unfoldable pub wasm_morecore : Grow → Heap → ℤ → Heap × Option ℕ
unfolding is_zero
wasm_morecore grow h size =
    if is_zero size
    then (h, some h.heap_end)
    else if ltb_ℤ size (pos 0)
    then (h, none)
    else if ltb (2 ^ 32 - 1 - pos_part size) h.heap_end
    then (h, none)
    else extend grow h (h.heap_end + pos_part size)
