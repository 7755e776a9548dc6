-- ===== src/Tests/Blocks.antt =====
-- Blocks of memory that src/wasm_runtime_core.cpp copies, fills and compares.
use dprint_clang_format.Base.{◌==◌, if◌then◌else◌, ℕ, ◌+◌, ◌<◌, ◌||◌, ◌≡◌, refl, ◌⊎◌, arith}
use dprint_clang_format.Base.Int.{pos, sub_ℕ}
use dprint_clang_format.Runtime.Block.{memcmp, memmove}
use dprint_clang_format.Runtime.Block.Copy.{memmove-moved}
use dprint_clang_format.Runtime.Block.Search.{Differ, memcmp_first}
use dprint_clang_format.Runtime.Memory.{IsCstring, Mem, SameBlock, moved}

-- The strings "hi" at 16 and "ho" at 32.
abbrev pub two_words : Mem
two_words a =
    if a == 16 || a == 32 then b'h' else if a == 17 then b'i' else if a == 33 then b'o' else 0

pub first_word : IsCstring two_words 16 2
first_word = record { before = λ k h. ground arith; at = refl }

pub second_word : IsCstring two_words 32 2
second_word = record { before = λ k h. ground arith; at = refl }

-- The blocks overlap.
memmove-moved_example : memmove two_words 17 16 2 ≡ (moved two_words 17 16 2, 17)
memmove-moved_example = memmove-moved two_words 17 16 2

memcmp_first_example :
    ((memcmp two_words 16 32 3 ≡ pos 0) × SameBlock two_words 16 32 3)
    ⊎ ((j : ℕ) × (j < 3)
        × Differ two_words 16 32 0 j
        × (memcmp two_words 16 32 3 ≡ sub_ℕ (two_words (16 + j)) (two_words (32 + j))))
memcmp_first_example = memcmp_first two_words 16 32 3
