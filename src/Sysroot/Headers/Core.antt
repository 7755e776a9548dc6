-- ===== src/Sysroot/Headers/Core.antt =====
-- Headers of support/wasm-sysroot/include: characters, errors, limits, floating point and what
-- else belongs to the language.
use dprint_clang_format.Base.{List, [], ◌∷◌}
use dprint_clang_format.Sysroot.Syntax.{
  Line, void, int, float, double, long_double, pointer, array, alias, number, word, builtin, cast,
  choose, ifndef, ifdef, otherwise, endif, include_next, define_empty, define, define_call,
  extern_c, close_extern_c, typedef, variable, proto, proto_no_return,
}

-- support/wasm-sysroot/include/assert.h
unfoldable pub assert_h : List Line
assert_h =
    ifndef "DPRINT_CLANG_FORMAT_WASM_ASSERT_H"
    ∷ define_empty "DPRINT_CLANG_FORMAT_WASM_ASSERT_H"
    ∷ ifdef "NDEBUG"
    ∷ define_call "assert" "expr" (cast void (number 0))
    ∷ otherwise
    ∷ define_call "assert" "expr"
        (choose (word "expr") (cast void (number 0)) (builtin "__builtin_trap"))
    ∷ endif
    ∷ endif
    ∷ []

-- support/wasm-sysroot/include/ctype.h
unfoldable pub ctype_h : List Line
ctype_h =
    ifndef "DPRINT_CLANG_FORMAT_WASM_CTYPE_H"
    ∷ define_empty "DPRINT_CLANG_FORMAT_WASM_CTYPE_H"
    ∷ ifdef "__cplusplus"
    ∷ extern_c
    ∷ endif
    ∷ proto int "isalnum" (int ∷ [])
    ∷ proto int "isalpha" (int ∷ [])
    ∷ proto int "isdigit" (int ∷ [])
    ∷ proto int "islower" (int ∷ [])
    ∷ proto int "isspace" (int ∷ [])
    ∷ proto int "isupper" (int ∷ [])
    ∷ proto int "isxdigit" (int ∷ [])
    ∷ proto int "tolower" (int ∷ [])
    ∷ proto int "toupper" (int ∷ [])
    ∷ ifdef "__cplusplus"
    ∷ close_extern_c
    ∷ endif
    ∷ endif
    ∷ []

-- support/wasm-sysroot/include/errno.h
unfoldable pub errno_h : List Line
errno_h =
    ifndef "DPRINT_CLANG_FORMAT_WASM_ERRNO_H"
    ∷ define_empty "DPRINT_CLANG_FORMAT_WASM_ERRNO_H"
    ∷ define "EDOM" (number 33)
    ∷ define "ERANGE" (number 34)
    ∷ define "EINVAL" (number 22)
    ∷ define "EINTR" (number 4)
    ∷ define "EAGAIN" (number 11)
    ∷ define "EWOULDBLOCK" (word "EAGAIN")
    ∷ define "ENOMEM" (number 12)
    ∷ define "EBADF" (number 9)
    ∷ define "EMFILE" (number 24)
    ∷ define "ENOENT" (number 2)
    ∷ define "ESRCH" (number 3)
    ∷ define "EACCES" (number 13)
    ∷ define "EEXIST" (number 17)
    ∷ define "ENOTDIR" (number 20)
    ∷ define "EISDIR" (number 21)
    ∷ define "ENOSYS" (number 38)
    ∷ define "ENOTSUP" (number 95)
    ∷ define "EPIPE" (number 32)
    ∷ define "ETIMEDOUT" (number 110)
    ∷ ifdef "__cplusplus"
    ∷ extern_c
    ∷ endif
    ∷ variable "errno" int
    ∷ ifdef "__cplusplus"
    ∷ close_extern_c
    ∷ endif
    ∷ endif
    ∷ []

-- support/wasm-sysroot/include/limits.h
unfoldable pub limits_h : List Line
limits_h =
    ifndef "DPRINT_CLANG_FORMAT_WASM_LIMITS_H"
    ∷ define_empty "DPRINT_CLANG_FORMAT_WASM_LIMITS_H"
    ∷ include_next "limits.h"
    ∷ ifndef "PATH_MAX"
    ∷ define "PATH_MAX" (number 4096)
    ∷ endif
    ∷ ifndef "NAME_MAX"
    ∷ define "NAME_MAX" (number 255)
    ∷ endif
    ∷ ifndef "_POSIX_ARG_MAX"
    ∷ define "_POSIX_ARG_MAX" (number 4096)
    ∷ endif
    ∷ endif
    ∷ []

-- support/wasm-sysroot/include/machine/endian.h
unfoldable pub machine_endian_h : List Line
machine_endian_h =
    ifndef "DPRINT_CLANG_FORMAT_WASM_MACHINE_ENDIAN_H"
    ∷ define_empty "DPRINT_CLANG_FORMAT_WASM_MACHINE_ENDIAN_H"
    ∷ define "LITTLE_ENDIAN" (number 1234)
    ∷ define "BIG_ENDIAN" (number 4321)
    ∷ define "PDP_ENDIAN" (number 3412)
    ∷ define "BYTE_ORDER" (word "LITTLE_ENDIAN")
    ∷ endif
    ∷ []

-- support/wasm-sysroot/include/math.h
unfoldable pub math_h : List Line
math_h =
    ifndef "DPRINT_CLANG_FORMAT_WASM_MATH_H"
    ∷ define_empty "DPRINT_CLANG_FORMAT_WASM_MATH_H"
    ∷ define "FP_NAN" (number 0)
    ∷ define "FP_INFINITE" (number 1)
    ∷ define "FP_ZERO" (number 2)
    ∷ define "FP_SUBNORMAL" (number 3)
    ∷ define "FP_NORMAL" (number 4)
    ∷ define "HUGE_VAL" (builtin "__builtin_huge_val")
    ∷ define "HUGE_VALF" (builtin "__builtin_huge_valf")
    ∷ define "HUGE_VALL" (builtin "__builtin_huge_vall")
    ∷ define "INFINITY" (builtin "__builtin_inff")
    ∷ define "NAN" (builtin "__builtin_nanf")
    ∷ ifdef "__cplusplus"
    ∷ extern_c
    ∷ endif
    ∷ proto double "fabs" (double ∷ [])
    ∷ proto float "fabsf" (float ∷ [])
    ∷ proto long_double "fabsl" (long_double ∷ [])
    ∷ proto double "modf" (double ∷ (pointer double ∷ []))
    ∷ ifdef "__cplusplus"
    ∷ close_extern_c
    ∷ endif
    ∷ endif
    ∷ []

-- support/wasm-sysroot/include/sched.h
unfoldable pub sched_h : List Line
sched_h =
    ifndef "DPRINT_CLANG_FORMAT_WASM_SCHED_H"
    ∷ define_empty "DPRINT_CLANG_FORMAT_WASM_SCHED_H"
    ∷ endif
    ∷ []

-- support/wasm-sysroot/include/setjmp.h
unfoldable pub setjmp_h : List Line
setjmp_h =
    ifndef "DPRINT_CLANG_FORMAT_WASM_SETJMP_H"
    ∷ define_empty "DPRINT_CLANG_FORMAT_WASM_SETJMP_H"
    ∷ typedef "jmp_buf" (array int 1)
    ∷ define_call "setjmp" "env" (number 0)
    ∷ ifdef "__cplusplus"
    ∷ extern_c
    ∷ endif
    ∷ proto_no_return void "longjmp" (alias "jmp_buf" ∷ (int ∷ []))
    ∷ ifdef "__cplusplus"
    ∷ close_extern_c
    ∷ endif
    ∷ endif
    ∷ []

-- support/wasm-sysroot/include/sysexits.h
unfoldable pub sysexits_h : List Line
sysexits_h =
    ifndef "DPRINT_CLANG_FORMAT_WASM_SYSEXITS_H"
    ∷ define_empty "DPRINT_CLANG_FORMAT_WASM_SYSEXITS_H"
    ∷ define "EX_OK" (number 0)
    ∷ define "EX_USAGE" (number 64)
    ∷ define "EX_DATAERR" (number 65)
    ∷ define "EX_NOINPUT" (number 66)
    ∷ define "EX_SOFTWARE" (number 70)
    ∷ define "EX_IOERR" (number 74)
    ∷ endif
    ∷ []
