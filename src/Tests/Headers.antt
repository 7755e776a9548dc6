-- ===== src/Tests/Headers.antt =====
-- The headers under support/wasm-sysroot/include, included and used.
use dprint_clang_format.Sysroot.Including.Unique.{include_all-Once}
use dprint_clang_format.Sysroot.Unique.{Once}
use dprint_clang_format.Sysroot.Syntax.{void, pointer, const, Line, Prototype, int, alias}
use dprint_clang_format.Base.{when_equal, false, done, ◌≡◌, refl, some, List, [], ◌∷◌}
use dprint_clang_format.Base.Int.{pos_part}
use dprint_clang_format.Runtime.Hooks.{enoent}
use Prim.Native.String.{String}
use mathlib.Core.List.{Memᴰ}
use dprint_clang_format.Sysroot.Headers.{sysroot}
use dprint_clang_format.Sysroot.Headers.Library.{string_h}
use dprint_clang_format.Sysroot.Preprocess.{Reading, find_in, read_header}
use dprint_clang_format.Sysroot.Preprocess.Depth.{Ends}
use dprint_clang_format.Sysroot.Values.{HasValues}
use dprint_clang_format.Sysroot.Including.{include_all, include_depth, include-Ends}
use dprint_clang_format.Sysroot.Including.Declared.{IsFresh, declarations, include_all-declares}
use dprint_clang_format.Sysroot.Scoped.{Scoped}
use dprint_clang_format.Sysroot.Including.Objects.{include_all-HasValues}
use dprint_clang_format.Sysroot.Prototypes.{runtime_prototypes}
use dprint_clang_format.Sysroot.Prototypes.Conform.{signature, declared-signature}
use dprint_clang_format.Sysroot.Macros.Modes.{file_type, stat_test, stat_test-file_type}
use dprint_clang_format.Sysroot.Macros.Codes.{error_code}

-- Where the compiler begins to read a C file.
abbrev blank : Reading
blank = record { macros = []; branches = []; declared = [] }

blank-IsFresh : IsFresh blank
blank-IsFresh k e = refl

blank-HasValues : HasValues blank
blank-HasValues k e q = cc

-- time.h is included by sys/stat.h, which comes first.
abbrev stat_and_time : List String
stat_and_time = "sys/stat.h" ∷ "time.h" ∷ "string.h" ∷ []

include-Ends_example : Ends (read_header sysroot include_depth "sys/wait.h" blank)
include-Ends_example = include-Ends "sys/wait.h" blank

include_all-declares_example :
    (r' : Reading) × (include_all stat_and_time blank ≡ done r')
    × ((name : String) (lines : List Line) (line : Line)
        → Memᴰ name stat_and_time
        → find_in name sysroot ≡ some lines
        → Memᴰ line (declarations lines)
        → Memᴰ line r'.declared)
include_all-declares_example = include_all-declares stat_and_time blank refl blank-IsFresh

include_all-Once_example :
    (r' : Reading) × (include_all stat_and_time blank ≡ done r') × Once r'.declared
include_all-Once_example = include_all-Once stat_and_time blank refl refl

include_all-HasValues_example :
    (r' : Reading) × (include_all stat_and_time blank ≡ done r') × HasValues r'
include_all-HasValues_example = include_all-HasValues stat_and_time blank blank-HasValues

string_found : find_in "string.h" sysroot ≡ some string_h
unfolding sysroot
string_found = refl

-- `memchr` as string.h declares it.
abbrev memchr_declared : Prototype
memchr_declared = record {
  result = pointer void;
  name = "memchr";
  params = pointer (const void) ∷ int ∷ alias "size_t" ∷ [];
  variadic = false;
  no_return = false;
}

memchr_in_header : Memᴰ (Line.declare memchr_declared) string_h
unfolding string_h
memchr_in_header =
    Memᴰ.tail (Memᴰ.tail (Memᴰ.tail (Memᴰ.tail (Memᴰ.tail (Memᴰ.tail (Memᴰ.head refl))))))

memchr_in_runtime : Memᴰ memchr_declared runtime_prototypes
unfolding runtime_prototypes
memchr_in_runtime =
    Memᴰ.tail
      (Memᴰ.tail (Memᴰ.tail (Memᴰ.tail (Memᴰ.tail (Memᴰ.tail (Memᴰ.tail (Memᴰ.head refl)))))))

declared-signature_example : signature memchr_declared ≡ signature memchr_declared
declared-signature_example =
    declared-signature "string.h" string_h memchr_declared memchr_declared string_found
      memchr_in_header memchr_in_runtime refl

stat_test-file_type_example : stat_test "S_ISDIR" 16877 ≡ some (when_equal (file_type 16877) 4)
stat_test-file_type_example =
    stat_test-file_type "S_ISDIR" 4 16877 (Memᴰ.tail (Memᴰ.tail (Memᴰ.head refl)))

-- What `realpath` puts into `errno` is the code of ENOENT.
realpath_code : error_code "ENOENT" ≡ some (pos_part enoent)
unfolding error_code
realpath_code = refl
