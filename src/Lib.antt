-- ===== src/Lib.antt =====
-- dprint-clang-format: clang-format as a Wasm plugin of dprint, with the C runtime that it needs.
--
-- The plugin (src/dprint_plugin.cpp) is a set of exported functions over a few static variables. dprint
-- writes a text into bytes that both share and calls a function, which takes the text from there and
-- puts its answer back in the same place. A configuration is registered under an id: its JSON payload
-- is parsed, its options are merged with dprint's global ones and read by Clang, and what comes of that
-- is kept in a table. `format` looks the configuration up, resolves the style again if there is an
-- override, and has Clang sort the includes and format the text. The runtime (src/wasm_runtime_core.cpp)
-- is the part of the C library that LLVM and Clang call, and the allocator (src/wasm_allocator.c) gives
-- dlmalloc the memory behind the program's own data.
--
--   Base        the libraries' names, Boolean tests, integers and lists over the native numbers, bytes
--   Runtime     src/wasm_runtime_core.cpp
--     Memory    the linear memory as a function from addresses to bytes, and what a block of it holds
--     Block     memset, memcpy, memmove, memcmp, memchr; Copy and Search say what they do
--     Cstring   strlen, strnlen, strchr, strcmp, strncmp, strncpy, strdup; Length, Order,
--               Lexical, Copy
--     Number    strtoll, strtoull, strtod, strtof, modf; Numeral (texts), Integer, Decimal, Whole
--     Ctype     isalpha and its like, toupper, tolower, abs
--     Wide      umul64wide, __multi3
--     Random    srand, rand
--     Hooks     abort, exit, operator new and delete, and the stubs
--     Floats    floating point, which is a parameter
--   Sysroot     support/wasm-sysroot/include, the headers that LLVM and the runtime are compiled with
--     Syntax    types, prototypes, the texts of macros, and the lines of a header
--     Headers   each header as the list of its lines: errno.h is errno_h, sys/stat.h is sys_stat_h
--     Preprocess  what a compiler does with the lines: conditionals, macros, #include; Guards, Later,
--               Once and Depth are about any headers
--     Table     tests of every header; Complete: what a header that is read has declared
--     Scoped    the type names that headers use and give; Unique, the types that they define
--     Including the headers included in any order: Again, Declared, Scoped, Unique, Objects
--     Values    what the macros of all the headers stand for
--     Prototypes  the functions of src/wasm_runtime_core.cpp beside the headers that declare them
--     Macros    what macros come to: Modes (sys/stat.h), Codes (errno.h), Flags (fcntl.h)
--   Allocator   src/wasm_allocator.c: wasm_morecore; Break is one call, Blocks a sequence of them
--   Plugin      src/dprint_plugin.cpp
--     Platform  LLVM's JSON, Clang and the build's constants, which are parameters
--     State     the static variables, take_shared_string, set_shared_string
--     Escape    json_escape, diagnostics_to_json; Roundtrip and Diagnostics read them back, Members
--               reads flat objects
--     Registry  find_config, upsert_config, the loop of release_config; Table, Entries
--     Options   parse_bool_value, parse_number_value, merge_global_options, merge_object_options,
--               reject_filesystem_dependent_style; Merge, Reject, Numbers
--     Resolve   resolve_format_style, resolve_registered_config; Precedence, Validity, Numerals
--     Payload   parse_register_payload, parse_override_payload
--     Format    normalize_file_path, style_for_format, format_inner; Outcome, Style
--     Exports   the exported functions; Info, Register, Payloads; Session, which is their step
--               relation, and Later; Service, where the table is a map from ids, and Service.Refines
--   Tests       the same code on concrete inputs, with a small stand-in for the platform
--
-- A function of the source is a function of the same name here, without leading underscores; one that
-- changes static variables takes the state and gives back its result and the new state. The part of a
-- function from some statement on is a helper, whose comment says where it begins. A word of w bits is
-- the number that it stands for, with the wrap-around written out; an `int` is an integer. Bytes are
-- numbers, and a text is the list of its bytes.
--
-- A loop with a bound is a recursion on the rounds that are left. The loops of strlen, strchr and strcmp
-- have none: they run on fuel, of which each round takes one and looks at one byte, so that more fuel
-- than the string is long is enough. The loops of the number parsers recur on the text. The reader in
-- Escape.Diagnostics runs on fuel too, which bounds the number of objects.
--
-- A header is a list of lines, a declaration being one line; parameters' names and comments are left
-- out. Reading a header takes a state (macros, open conditionals, declarations so far) to the next one.
-- The fuel of `#include` is the depth to which headers include one another, and five is enough for
-- these. Headers that are not in the table are the compiler's own (stddef.h, stdint.h, limits.h behind
-- #include_next): they add nothing, and their type names count as declared.
--
-- The parameters are floating point, of which exactness on integers up to 2 ^ 53 is assumed where
-- it is used; JSON objects, of which it is assumed that they behave as maps; Clang, of which nothing is
-- assumed; malloc and free; and memory.grow, which refuses more than 2 ^ 16 pages. Not modelled are
-- dlmalloc (support/allocators/dlmalloc), which is another project's library, LLVM's patches
-- (support/patches), the stand-ins for headers of libc++ (support/libcxx-wasm), the build and the
-- end-to-end tests. What a call returns
-- in `errno` or through a pointer is part of the result of its function. Pointers are addresses, or,
-- in the number parsers, the rest of the text that they point to.
pub mod Base
pub mod Runtime
pub mod Sysroot
pub mod Allocator
pub mod Plugin
pub mod Tests
