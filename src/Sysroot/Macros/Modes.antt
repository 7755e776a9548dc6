-- ===== src/Sysroot/Macros/Modes.antt =====
-- The macros of support/wasm-sysroot/include/sys/stat.h that tell the types of files apart.
use dprint_clang_format.Base.{
  when_equal, All-Mem, ℕ, ◌*◌, ◌/◌, ◌%◌, ◌^◌, ◌≡◌, ap, ◌∙◌, Option, some, List, [], ◌∷◌, arith,
}
use Prim.Native.String.{String}
use Prim.Native.Nat.{bit_and}
use mathlib.Core.List.{Memᴰ}
use dprint_clang_format.Base.Bits.{bit_and-shifted, bit_and-low}
use dprint_clang_format.Sysroot.Headers.Files.{sys_stat_h}
use dprint_clang_format.Sysroot.Macros.{macros_of, call_value, object_value, value}

-- The type of a file is the four bits of its mode above the permissions.
abbrev pub file_type : ℕ → ℕ
file_type mode = mode / 2 ^ 12 % 2 ^ 4

-- The types and their tests, as POSIX has them.
abbrev pub file_tests : List (String × ℕ)
file_tests =
    ("S_ISFIFO", 1)
    ∷ ("S_ISCHR", 2)
    ∷ ("S_ISDIR", 4)
    ∷ ("S_ISBLK", 6)
    ∷ ("S_ISREG", 8)
    ∷ ("S_ISLNK", 10)
    ∷ ("S_ISSOCK", 12)
    ∷ []

-- A call of a macro of the header.
unfoldable pub stat_test : String → ℕ → Option ℕ
unfolding call_value object_value value macros_of sys_stat_h
stat_test name mode = call_value (macros_of sys_stat_h) 1 name mode

masked_type : (mode : ℕ) → bit_and mode 61440 ≡ file_type mode * 2 ^ 12
masked_type mode =
    bit_and-shifted 12 mode 15 ∙ ap (λ (t : ℕ). t * 2 ^ 12) (bit_and-low 4 (mode / 2 ^ 12))

scaled_equal : (a b : ℕ) → when_equal (a * 2 ^ 12) (b * 2 ^ 12) ≡ when_equal a b
scaled_equal a b = ground arith

type_test :
    (mode code : ℕ)
    → when_equal (bit_and mode 61440) (code * 2 ^ 12) ≡ when_equal (file_type mode) code
type_test mode code = rw (masked_type mode) (scaled_equal (file_type mode) code)

-- Each macro of sys/stat.h for a type of file is 1 on the modes with the code that POSIX has for that
-- type above the permission bits, and 0 on all others.
pub stat_test-file_type :
    (name : String) (code mode : ℕ)
    → Memᴰ (name, code) file_tests
    → stat_test name mode ≡ some (when_equal (file_type mode) code)
unfolding stat_test
stat_test-file_type name code mode m =
    All-Mem (λ (t : String × ℕ). stat_test t.0 mode ≡ some (when_equal (file_type mode) t.1))
      file_tests (name, code)
      (type 1, (type 2, (type 4, (type 6, (type 8, (type 10, (type 12, tt))))))) m
  where
    type :
        (code : ℕ)
        → some (when_equal (bit_and mode 61440) (code * 2 ^ 12))
          ≡ some (when_equal (file_type mode) code)
    type code = ap some (type_test mode code)
