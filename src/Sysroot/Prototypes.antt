-- ===== src/Sysroot/Prototypes.antt =====
-- The functions of src/wasm_runtime_core.cpp as they are declared there. It includes neither string.h
-- nor math.h, so that no compiler compares those of memset to strdup and of modf with the headers.
pub mod Conform
use dprint_clang_format.Sysroot.Syntax.{
  float, unsigned_long_long, long_long, va_list, char, const, unsigned_int, unsigned_long, alias,
  double, function, int, long, pointer, void, Prototype, Ctype,
}
use dprint_clang_format.Base.{true, false, List, [], ◌∷◌, ◌++◌}
use Prim.Native.String.{String}

abbrev plain : Ctype → String → List Ctype → Prototype
plain result name params = record {
  result = result;
  name = name;
  params = params;
  variadic = false;
  no_return = false;
}

abbrev with_rest : Ctype → String → List Ctype → Prototype
with_rest result name params = record {
  result = result;
  name = name;
  params = params;
  variadic = true;
  no_return = false;
}

abbrev bytes_in : Ctype
bytes_in = pointer (const void)

abbrev bytes_out : Ctype
bytes_out = pointer void

abbrev string_in : Ctype
string_in = pointer (const char)

abbrev string_out : Ctype
string_out = pointer char

abbrev size : Ctype
size = alias "size_t"

abbrev comparison : Ctype
comparison = function bytes_in (function bytes_in int)

unfoldable pub exit_prototypes : List Prototype
exit_prototypes =
    plain void "abort" [] ∷ plain void "exit" (int ∷ []) ∷ plain void "_Exit" (int ∷ []) ∷ []

unfoldable pub string_prototypes : List Prototype
string_prototypes =
    plain bytes_out "memset" (bytes_out ∷ int ∷ size ∷ [])
    ∷ plain bytes_out "memcpy" (bytes_out ∷ bytes_in ∷ size ∷ [])
    ∷ plain bytes_out "memmove" (bytes_out ∷ bytes_in ∷ size ∷ [])
    ∷ plain int "memcmp" (bytes_in ∷ bytes_in ∷ size ∷ [])
    ∷ plain bytes_out "memchr" (bytes_in ∷ int ∷ size ∷ [])
    ∷ plain size "strlen" (string_in ∷ [])
    ∷ plain size "strnlen" (string_in ∷ size ∷ [])
    ∷ plain string_out "strchr" (string_in ∷ int ∷ [])
    ∷ plain int "strcmp" (string_in ∷ string_in ∷ [])
    ∷ plain int "strncmp" (string_in ∷ string_in ∷ size ∷ [])
    ∷ plain string_out "strncpy" (string_out ∷ string_in ∷ size ∷ [])
    ∷ []

unfoldable pub library_prototypes : List Prototype
library_prototypes =
    plain string_out "strerror" (int ∷ [])
    ∷ plain void "qsort" (bytes_out ∷ size ∷ size ∷ pointer comparison ∷ [])
    ∷ plain string_out "getenv" (string_in ∷ [])
    ∷ plain string_out "realpath" (string_in ∷ string_out ∷ [])
    ∷ plain string_out "strdup" (string_in ∷ [])
    ∷ plain int "abs" (int ∷ [])
    ∷ plain void "srand" (unsigned_int ∷ [])
    ∷ plain int "rand" []
    ∷ []

unfoldable pub number_prototypes : List Prototype
number_prototypes =
    plain long "strtol" (string_in ∷ pointer string_out ∷ int ∷ [])
    ∷ plain unsigned_long "strtoul" (string_in ∷ pointer string_out ∷ int ∷ [])
    ∷ plain long_long "strtoll" (string_in ∷ pointer string_out ∷ int ∷ [])
    ∷ plain unsigned_long_long "strtoull" (string_in ∷ pointer string_out ∷ int ∷ [])
    ∷ plain float "strtof" (string_in ∷ pointer string_out ∷ [])
    ∷ plain double "strtod" (string_in ∷ pointer string_out ∷ [])
    ∷ []

unfoldable pub character_prototypes : List Prototype
character_prototypes =
    plain int "isalnum" (int ∷ [])
    ∷ plain int "isalpha" (int ∷ [])
    ∷ plain int "isdigit" (int ∷ [])
    ∷ plain int "islower" (int ∷ [])
    ∷ plain int "isspace" (int ∷ [])
    ∷ plain int "isupper" (int ∷ [])
    ∷ plain int "isxdigit" (int ∷ [])
    ∷ plain int "tolower" (int ∷ [])
    ∷ plain int "toupper" (int ∷ [])
    ∷ []

unfoldable pub print_prototypes : List Prototype
print_prototypes =
    with_rest int "snprintf" (string_out ∷ unsigned_long ∷ string_in ∷ [])
    ∷ plain int "vsnprintf" (string_out ∷ unsigned_long ∷ string_in ∷ va_list ∷ [])
    ∷ with_rest int "printf" (string_in ∷ [])
    ∷ with_rest int "fprintf" (pointer (alias "FILE") ∷ string_in ∷ [])
    ∷ []

unfoldable pub modf_prototype : Prototype
modf_prototype = plain double "modf" (double ∷ pointer double ∷ [])

-- Every function with a name that a header can declare.
unfoldable pub runtime_prototypes : List Prototype
unfolding exit_prototypes string_prototypes library_prototypes number_prototypes
    character_prototypes print_prototypes modf_prototype
runtime_prototypes =
    exit_prototypes
    ++ (string_prototypes
        ++ (library_prototypes
            ++ (number_prototypes
                ++ (character_prototypes ++ (print_prototypes ++ (modf_prototype ∷ []))))))
