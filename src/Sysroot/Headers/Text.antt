-- ===== src/Sysroot/Headers/Text.antt =====
-- Headers of support/wasm-sysroot/include: formats and wide characters.
use dprint_clang_format.Base.{List, [], ◌∷◌}
use dprint_clang_format.Sysroot.Syntax.{
  Line, int, unsigned_int, long, unsigned_long, long_long, unsigned_long_long, float, double,
  long_double, const, pointer, alias, negative, quoted, cast, ifndef, ifdef, endif, include,
  define_empty, define, extern_c, close_extern_c, typedef, typedef_struct, proto, proto_variadic,
}

-- support/wasm-sysroot/include/inttypes.h
unfoldable pub inttypes_h : List Line
inttypes_h =
    ifndef "DPRINT_CLANG_FORMAT_WASM_INTTYPES_H"
    ∷ define_empty "DPRINT_CLANG_FORMAT_WASM_INTTYPES_H"
    ∷ include "stdint.h"
    ∷ define "PRId8" (quoted "d")
    ∷ define "PRId16" (quoted "d")
    ∷ define "PRId32" (quoted "d")
    ∷ define "PRId64" (quoted "lld")
    ∷ define "PRIi8" (quoted "i")
    ∷ define "PRIi16" (quoted "i")
    ∷ define "PRIi32" (quoted "i")
    ∷ define "PRIi64" (quoted "lli")
    ∷ define "PRIo8" (quoted "o")
    ∷ define "PRIo16" (quoted "o")
    ∷ define "PRIo32" (quoted "o")
    ∷ define "PRIo64" (quoted "llo")
    ∷ define "PRIu8" (quoted "u")
    ∷ define "PRIu16" (quoted "u")
    ∷ define "PRIu32" (quoted "u")
    ∷ define "PRIu64" (quoted "llu")
    ∷ define "PRIx8" (quoted "x")
    ∷ define "PRIx16" (quoted "x")
    ∷ define "PRIx32" (quoted "x")
    ∷ define "PRIx64" (quoted "llx")
    ∷ define "PRIX8" (quoted "X")
    ∷ define "PRIX16" (quoted "X")
    ∷ define "PRIX32" (quoted "X")
    ∷ define "PRIX64" (quoted "llX")
    ∷ define "PRIdPTR" (quoted "ld")
    ∷ define "PRIiPTR" (quoted "li")
    ∷ define "PRIoPTR" (quoted "lo")
    ∷ define "PRIuPTR" (quoted "lu")
    ∷ define "PRIxPTR" (quoted "lx")
    ∷ define "PRIXPTR" (quoted "lX")
    ∷ endif
    ∷ []

-- support/wasm-sysroot/include/wchar.h
unfoldable pub wchar_h : List Line
wchar_h =
    ifndef "DPRINT_CLANG_FORMAT_WASM_WCHAR_H"
    ∷ define_empty "DPRINT_CLANG_FORMAT_WASM_WCHAR_H"
    ∷ include "stddef.h"
    ∷ typedef_struct "mbstate_t" (("opaque", unsigned_int) ∷ [])
    ∷ typedef "wint_t" unsigned_int
    ∷ define "WEOF" (cast (alias "wint_t") (negative 1))
    ∷ ifdef "__cplusplus"
    ∷ extern_c
    ∷ endif
    ∷ proto int "wmemcmp" (
        pointer (const (alias "wchar_t"))
        ∷ (pointer (const (alias "wchar_t")) ∷ (alias "size_t" ∷ [])))
    ∷ proto (pointer (alias "wchar_t")) "wmemcpy"
        (pointer (alias "wchar_t") ∷ (pointer (const (alias "wchar_t")) ∷ (alias "size_t" ∷ [])))
    ∷ proto (pointer (alias "wchar_t")) "wmemmove"
        (pointer (alias "wchar_t") ∷ (pointer (const (alias "wchar_t")) ∷ (alias "size_t" ∷ [])))
    ∷ proto (pointer (alias "wchar_t")) "wmemset"
        (pointer (alias "wchar_t") ∷ (alias "wchar_t" ∷ (alias "size_t" ∷ [])))
    ∷ proto (alias "size_t") "wcslen" (pointer (const (alias "wchar_t")) ∷ [])
    ∷ proto_variadic int "swprintf"
        (pointer (alias "wchar_t") ∷ (alias "size_t" ∷ (pointer (const (alias "wchar_t")) ∷ [])))
    ∷ proto (pointer (alias "wchar_t")) "wcschr"
        (pointer (const (alias "wchar_t")) ∷ (alias "wchar_t" ∷ []))
    ∷ proto (pointer (alias "wchar_t")) "wcspbrk"
        (pointer (const (alias "wchar_t")) ∷ (pointer (const (alias "wchar_t")) ∷ []))
    ∷ proto (pointer (alias "wchar_t")) "wcsrchr"
        (pointer (const (alias "wchar_t")) ∷ (alias "wchar_t" ∷ []))
    ∷ proto (pointer (alias "wchar_t")) "wcsstr"
        (pointer (const (alias "wchar_t")) ∷ (pointer (const (alias "wchar_t")) ∷ []))
    ∷ proto (pointer (alias "wchar_t")) "wmemchr"
        (pointer (const (alias "wchar_t")) ∷ (alias "wchar_t" ∷ (alias "size_t" ∷ [])))
    ∷ proto long "wcstol"
        (pointer (const (alias "wchar_t")) ∷ (pointer (pointer (alias "wchar_t")) ∷ (int ∷ [])))
    ∷ proto unsigned_long "wcstoul"
        (pointer (const (alias "wchar_t")) ∷ (pointer (pointer (alias "wchar_t")) ∷ (int ∷ [])))
    ∷ proto long_long "wcstoll"
        (pointer (const (alias "wchar_t")) ∷ (pointer (pointer (alias "wchar_t")) ∷ (int ∷ [])))
    ∷ proto unsigned_long_long "wcstoull"
        (pointer (const (alias "wchar_t")) ∷ (pointer (pointer (alias "wchar_t")) ∷ (int ∷ [])))
    ∷ proto float "wcstof"
        (pointer (const (alias "wchar_t")) ∷ (pointer (pointer (alias "wchar_t")) ∷ []))
    ∷ proto double "wcstod"
        (pointer (const (alias "wchar_t")) ∷ (pointer (pointer (alias "wchar_t")) ∷ []))
    ∷ proto long_double "wcstold"
        (pointer (const (alias "wchar_t")) ∷ (pointer (pointer (alias "wchar_t")) ∷ []))
    ∷ ifdef "__cplusplus"
    ∷ close_extern_c
    ∷ endif
    ∷ endif
    ∷ []
