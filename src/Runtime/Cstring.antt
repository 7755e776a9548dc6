-- ===== src/Runtime/Cstring.antt =====
-- The string functions of src/wasm_runtime_core.cpp. A loop with no bound of its own takes fuel, the
-- rounds that it may make; more fuel than the string is long is enough.
-- `char` values are compared as bytes: two bytes are equal as `char` exactly if they are equal.
pub mod Length
pub mod Order
pub mod Lexical
pub mod Copy
use dprint_clang_format.Base.{
  ℕ, zero, suc, ◌+◌, Option, none, some, Bool, ◌&&◌, ◌||◌, not, ltb, ◌==◌, if◌then◌else◌, Run, done,
  out_of_fuel,
}
use dprint_clang_format.Base.Int.{ℤ, pos, sub_ℕ}
use dprint_clang_format.Runtime.Memory.{Mem, Ptr, write}
use dprint_clang_format.Runtime.Block.{byte, memcpy}

strlen_loop : ℕ → Mem → Ptr → ℕ → Run ℕ
strlen_loop zero m str len = out_of_fuel
strlen_loop (suc f) m str len =
    let rest = strlen_loop f m str (len + 1) in if m (str + len) == 0 then done len else rest

unfoldable pub strlen : ℕ → Mem → Ptr → Run ℕ
unfolding strlen_loop
strlen fuel m str = strlen_loop fuel m str 0

-- The first argument is `max_len - len`: the loop ends when it is 0.
strnlen_loop : ℕ → Mem → Ptr → ℕ → ℕ
strnlen_loop zero m str len = len
strnlen_loop (suc k) m str len =
    let rest = strnlen_loop k m str (len + 1) in if m (str + len) == 0 then len else rest

unfoldable pub strnlen : Mem → Ptr → ℕ → ℕ
unfolding strnlen_loop
strnlen m str max_len = strnlen_loop max_len m str 0

strchr_loop : ℕ → Mem → Ptr → ℕ → ℕ → Run (Option Ptr)
strchr_loop zero m str value i = out_of_fuel
strchr_loop (suc f) m str value i =
    let rest = strchr_loop f m str value (i + 1) in
    if m (str + i) == byte value
    then done (some (str + i))
    else if m (str + i) == 0
    then done none
    else rest

unfoldable pub strchr : ℕ → Mem → Ptr → ℕ → Run (Option Ptr)
unfolding strchr_loop
strchr fuel m str value = strchr_loop fuel m str value 0

strcmp_loop : ℕ → Mem → Ptr → Ptr → ℕ → Run ℤ
strcmp_loop zero m left right i = out_of_fuel
strcmp_loop (suc f) m left right i =
    let rest = strcmp_loop f m left right (i + 1) in
    if not (m (left + i) == 0) && m (left + i) == m (right + i)
    then rest
    else done (sub_ℕ (m (left + i)) (m (right + i)))

unfoldable pub strcmp : ℕ → Mem → Ptr → Ptr → Run ℤ
unfolding strcmp_loop
strcmp fuel m left right = strcmp_loop fuel m left right 0

strncmp_loop : ℕ → Mem → Ptr → Ptr → ℕ → ℤ
strncmp_loop zero m left right i = pos 0
strncmp_loop (suc k) m left right i =
    let rest = strncmp_loop k m left right (i + 1) in
    if not (m (left + i) == m (right + i)) || m (left + i) == 0
    then sub_ℕ (m (left + i)) (m (right + i))
    else rest

unfoldable pub strncmp : Mem → Ptr → Ptr → ℕ → ℤ
unfolding strncmp_loop
strncmp m left right count = strncmp_loop count m left right 0

-- The second loop of `strncpy`.
pad : ℕ → Mem → Ptr → ℕ → Mem
pad zero m dest i = m
pad (suc k) m dest i = pad k (write m (dest + i) 0) dest (i + 1)

-- Both loops: the first goes on while there is room and no NUL, the second fills the room left.
strncpy_loop : ℕ → Mem → Ptr → Ptr → ℕ → Mem
unfolding pad
strncpy_loop zero m dest src i = m
strncpy_loop (suc k) m dest src i =
    let rest = strncpy_loop k (write m (dest + i) (m (src + i))) dest src (i + 1) in
    if m (src + i) == 0 then pad (suc k) m dest i else rest

unfoldable pub strncpy : Mem → Ptr → Ptr → ℕ → Mem × Ptr
unfolding strncpy_loop
strncpy m dest src count = (strncpy_loop count m dest src 0, dest)

-- What `malloc` does: null or an address, and the memory afterwards.
abbrev pub Malloc : Type 0
Malloc = ℕ → Mem → Option Ptr × Mem

copy_into : Option Ptr × Mem → Ptr → ℕ → Option Ptr × Mem
copy_into (none, m) str size = (none, m)
copy_into (some out, m) str size = (some out, (memcpy m out str size).0)

duplicate : Malloc → Run ℕ → Mem → Ptr → Run (Option Ptr × Mem)
unfolding copy_into
duplicate malloc (done len) m str = done (copy_into (malloc (len + 1) m) str (len + 1))
duplicate malloc out_of_fuel m str = out_of_fuel

unfoldable pub strdup : Malloc → ℕ → Mem → Ptr → Run (Option Ptr × Mem)
unfolding duplicate
strdup malloc fuel m str = duplicate malloc (strlen fuel m str) m str
