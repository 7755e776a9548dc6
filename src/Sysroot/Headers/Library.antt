-- ===== src/Sysroot/Headers/Library.antt =====
-- Headers of support/wasm-sysroot/include: streams, the standard functions, strings and times.
use dprint_clang_format.Base.{List, [], ◌∷◌}
use dprint_clang_format.Sysroot.Syntax.{
  Line, void, char, int, unsigned_int, long, unsigned_long, long_long, unsigned_long_long, float,
  double, long_double, va_list, const, pointer, alias, tag, function, number, negative, ifndef,
  ifdef, endif, include, define_empty, define, extern_c, close_extern_c, typedef, struct,
  typedef_struct, opaque, variable, proto, proto_variadic, proto_no_return,
}

-- support/wasm-sysroot/include/stdio.h
unfoldable pub stdio_h : List Line
stdio_h =
    ifndef "DPRINT_CLANG_FORMAT_WASM_STDIO_H"
    ∷ define_empty "DPRINT_CLANG_FORMAT_WASM_STDIO_H"
    ∷ define "EOF" (negative 1)
    ∷ define "BUFSIZ" (number 1024)
    ∷ opaque "FILE"
    ∷ ifdef "__cplusplus"
    ∷ extern_c
    ∷ endif
    ∷ variable "stdin" (pointer (alias "FILE"))
    ∷ variable "stdout" (pointer (alias "FILE"))
    ∷ variable "stderr" (pointer (alias "FILE"))
    ∷ proto int "remove" (pointer (const char) ∷ [])
    ∷ proto int "rename" (pointer (const char) ∷ (pointer (const char) ∷ []))
    ∷ proto int "feof" (pointer (alias "FILE") ∷ [])
    ∷ proto int "ferror" (pointer (alias "FILE") ∷ [])
    ∷ proto int "fflush" (pointer (alias "FILE") ∷ [])
    ∷ proto_variadic int "fprintf" (pointer (alias "FILE") ∷ (pointer (const char) ∷ []))
    ∷ proto_variadic int "printf" (pointer (const char) ∷ [])
    ∷ proto_variadic int "snprintf" (pointer char ∷ (unsigned_long ∷ (pointer (const char) ∷ [])))
    ∷ proto int "vsnprintf"
        (pointer char ∷ (unsigned_long ∷ (pointer (const char) ∷ (va_list ∷ []))))
    ∷ ifdef "__cplusplus"
    ∷ close_extern_c
    ∷ endif
    ∷ endif
    ∷ []

-- support/wasm-sysroot/include/stdlib.h
unfoldable pub stdlib_h : List Line
stdlib_h =
    ifndef "DPRINT_CLANG_FORMAT_WASM_STDLIB_H"
    ∷ define_empty "DPRINT_CLANG_FORMAT_WASM_STDLIB_H"
    ∷ include "stddef.h"
    ∷ define "EXIT_FAILURE" (number 1)
    ∷ define "EXIT_SUCCESS" (number 0)
    ∷ typedef_struct "div_t" (("quot", int) ∷ (("rem", int) ∷ []))
    ∷ typedef_struct "ldiv_t" (("quot", long) ∷ (("rem", long) ∷ []))
    ∷ typedef_struct "lldiv_t" (("quot", long_long) ∷ (("rem", long_long) ∷ []))
    ∷ ifdef "__cplusplus"
    ∷ extern_c
    ∷ endif
    ∷ proto int "abs" (int ∷ [])
    ∷ proto_no_return void "abort" []
    ∷ proto int "atoi" (pointer (const char) ∷ [])
    ∷ proto (pointer void) "calloc" (alias "size_t" ∷ (alias "size_t" ∷ []))
    ∷ proto (alias "div_t") "div" (int ∷ (int ∷ []))
    ∷ proto_no_return void "exit" (int ∷ [])
    ∷ proto_no_return void "_Exit" (int ∷ [])
    ∷ proto void "free" (pointer void ∷ [])
    ∷ proto long "labs" (long ∷ [])
    ∷ proto (alias "ldiv_t") "ldiv" (long ∷ (long ∷ []))
    ∷ proto long_long "llabs" (long_long ∷ [])
    ∷ proto (alias "lldiv_t") "lldiv" (long_long ∷ (long_long ∷ []))
    ∷ proto (pointer char) "getenv" (pointer (const char) ∷ [])
    ∷ proto (pointer char) "realpath" (pointer (const char) ∷ (pointer char ∷ []))
    ∷ proto (pointer void) "malloc" (alias "size_t" ∷ [])
    ∷ proto void "qsort" (
        pointer void
        ∷ (alias "size_t"
            ∷ (alias "size_t"
                ∷ (pointer (function (pointer (const void)) (function (pointer (const void)) int))
                    ∷ []))))
    ∷ proto int "rand" []
    ∷ proto (pointer void) "realloc" (pointer void ∷ (alias "size_t" ∷ []))
    ∷ proto void "srand" (unsigned_int ∷ [])
    ∷ proto double "strtod" (pointer (const char) ∷ (pointer (pointer char) ∷ []))
    ∷ proto float "strtof" (pointer (const char) ∷ (pointer (pointer char) ∷ []))
    ∷ proto long "strtol" (pointer (const char) ∷ (pointer (pointer char) ∷ (int ∷ [])))
    ∷ proto long_double "strtold" (pointer (const char) ∷ (pointer (pointer char) ∷ []))
    ∷ proto long_long "strtoll" (pointer (const char) ∷ (pointer (pointer char) ∷ (int ∷ [])))
    ∷ proto unsigned_long "strtoul" (pointer (const char) ∷ (pointer (pointer char) ∷ (int ∷ [])))
    ∷ proto unsigned_long_long "strtoull"
        (pointer (const char) ∷ (pointer (pointer char) ∷ (int ∷ [])))
    ∷ ifdef "__cplusplus"
    ∷ close_extern_c
    ∷ endif
    ∷ endif
    ∷ []

-- support/wasm-sysroot/include/string.h
unfoldable pub string_h : List Line
string_h =
    ifndef "DPRINT_CLANG_FORMAT_WASM_STRING_H"
    ∷ define_empty "DPRINT_CLANG_FORMAT_WASM_STRING_H"
    ∷ include "stddef.h"
    ∷ ifdef "__cplusplus"
    ∷ extern_c
    ∷ endif
    ∷ proto (pointer void) "memchr" (pointer (const void) ∷ (int ∷ (alias "size_t" ∷ [])))
    ∷ proto int "memcmp" (pointer (const void) ∷ (pointer (const void) ∷ (alias "size_t" ∷ [])))
    ∷ proto (pointer void) "memcpy" (pointer void ∷ (pointer (const void) ∷ (alias "size_t" ∷ [])))
    ∷ proto (pointer void) "memmove" (pointer void ∷ (pointer (const void) ∷ (alias "size_t" ∷ [])))
    ∷ proto (pointer void) "memset" (pointer void ∷ (int ∷ (alias "size_t" ∷ [])))
    ∷ proto (pointer char) "strchr" (pointer (const char) ∷ (int ∷ []))
    ∷ proto (pointer char) "strcpy" (pointer char ∷ (pointer (const char) ∷ []))
    ∷ proto int "strcmp" (pointer (const char) ∷ (pointer (const char) ∷ []))
    ∷ proto (pointer char) "strerror" (int ∷ [])
    ∷ proto (pointer char) "strsignal" (int ∷ [])
    ∷ proto (alias "size_t") "strlen" (pointer (const char) ∷ [])
    ∷ proto (alias "size_t") "strnlen" (pointer (const char) ∷ (alias "size_t" ∷ []))
    ∷ proto int "strncmp" (pointer (const char) ∷ (pointer (const char) ∷ (alias "size_t" ∷ [])))
    ∷ proto (pointer char) "strncpy" (pointer char ∷ (pointer (const char) ∷ (alias "size_t" ∷ [])))
    ∷ proto (pointer char) "strdup" (pointer (const char) ∷ [])
    ∷ proto (pointer char) "strtok_r"
        (pointer char ∷ (pointer (const char) ∷ (pointer (pointer char) ∷ [])))
    ∷ ifdef "__cplusplus"
    ∷ close_extern_c
    ∷ endif
    ∷ endif
    ∷ []

-- support/wasm-sysroot/include/time.h
unfoldable pub time_h : List Line
time_h =
    ifndef "DPRINT_CLANG_FORMAT_WASM_TIME_H"
    ∷ define_empty "DPRINT_CLANG_FORMAT_WASM_TIME_H"
    ∷ typedef "time_t" long
    ∷ ifndef "DPRINT_CLANG_FORMAT_WASM_TIMESPEC"
    ∷ define_empty "DPRINT_CLANG_FORMAT_WASM_TIMESPEC"
    ∷ struct "timespec" (("tv_sec", alias "time_t") ∷ (("tv_nsec", long) ∷ []))
    ∷ endif
    ∷ struct "tm" (
        ("tm_sec", int)
        ∷ (("tm_min", int)
            ∷ (("tm_hour", int)
                ∷ (("tm_mday", int)
                    ∷ (("tm_mon", int)
                        ∷ (("tm_year", int)
                            ∷ (("tm_wday", int)
                                ∷ (("tm_yday", int) ∷ (("tm_isdst", int) ∷ [])))))))))
    ∷ ifdef "__cplusplus"
    ∷ extern_c
    ∷ endif
    ∷ proto (pointer (tag "tm")) "gmtime_r"
        (pointer (const (alias "time_t")) ∷ (pointer (tag "tm") ∷ []))
    ∷ proto (pointer (tag "tm")) "localtime_r"
        (pointer (const (alias "time_t")) ∷ (pointer (tag "tm") ∷ []))
    ∷ proto (pointer (tag "tm")) "gmtime" (pointer (const (alias "time_t")) ∷ [])
    ∷ proto (pointer (tag "tm")) "localtime" (pointer (const (alias "time_t")) ∷ [])
    ∷ proto unsigned_long "strftime" (
        pointer char ∷ (unsigned_long ∷ (pointer (const char) ∷ (pointer (const (tag "tm")) ∷ []))))
    ∷ proto (alias "time_t") "time" (pointer (alias "time_t") ∷ [])
    ∷ ifdef "__cplusplus"
    ∷ close_extern_c
    ∷ endif
    ∷ endif
    ∷ []
