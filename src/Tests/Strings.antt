-- ===== src/Tests/Strings.antt =====
-- C strings that src/wasm_runtime_core.cpp measures, compares and copies.
use dprint_clang_format.Base.{done, min, some, ◌≡◌, refl, inl, arith}
use dprint_clang_format.Runtime.Cstring.{Malloc, strcmp, strdup, strnlen}
use dprint_clang_format.Runtime.Cstring.Copy.{IsDuplicate, strdup-IsDuplicate}
use dprint_clang_format.Runtime.Cstring.Length.{strnlen-min}
use dprint_clang_format.Runtime.Cstring.Lexical.{bytes_at, compare_texts, strcmp-compare_texts}
use dprint_clang_format.Runtime.Memory.{Mem}
use dprint_clang_format.Tests.Blocks.{two_words, first_word, second_word}

strnlen-min_example : strnlen two_words 16 1 ≡ min 2 1
strnlen-min_example = strnlen-min two_words 16 2 1 first_word

strcmp-compare_texts_example :
    strcmp 3 two_words 16 32
    ≡ done (compare_texts (bytes_at two_words 16 2) (bytes_at two_words 32 2))
strcmp-compare_texts_example =
    strcmp-compare_texts 3 two_words 16 32 2 2 first_word second_word (omega arith)

-- Each block is at 64.
abbrev one_place : Malloc
one_place size m = (some 64, m)

strdup-IsDuplicate_example :
    (g : Mem) × (strdup one_place 3 two_words 16 ≡ done (some 64, g))
    × IsDuplicate two_words 16 2 two_words (some 64) g
strdup-IsDuplicate_example =
    strdup-IsDuplicate one_place 3 two_words two_words 16 2 (some 64) first_word (omega arith) refl
      (λ k h. refl) (inl (omega arith))
