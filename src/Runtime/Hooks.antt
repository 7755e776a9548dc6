-- ===== src/Runtime/Hooks.antt =====
-- The rest of src/wasm_runtime_core.cpp that touches no floating point: the functions that end the
-- program, the memory operators of C++, and the host functions that the sandbox lacks.
use dprint_clang_format.Base.{ℕ, Option, none, some, ◌≡◌, refl, ◌⊎◌, inl, inr, Bytes, text}
use dprint_clang_format.Base.Int.{ℤ, pos, negsuc}
use dprint_clang_format.Runtime.Memory.{Mem, Ptr}
use dprint_clang_format.Runtime.Cstring.{Malloc}

-- A call that may end in a trap of the machine.
pub data Outcome {ℓ} (A : Type ℓ) : Type ℓ where
  returned : A → Outcome A
  trapped : Outcome A

unfoldable pub abort {ℓ} : {A : Type ℓ} → Outcome A
abort = trapped

unfoldable pub exit {ℓ} : {A : Type ℓ} → ℤ → Outcome A
unfolding abort
exit status = abort

unfoldable pub cxa_pure_virtual {ℓ} : {A : Type ℓ} → Outcome A
unfolding abort
cxa_pure_virtual = abort

unfoldable pub cxa_atexit : ℤ
cxa_atexit = pos 0

-- `operator new`, also for arrays.
new_of : Option Ptr × Mem → Outcome (Ptr × Mem)
unfolding abort
new_of (none, m) = abort
new_of (some p, m) = returned (p, m)

unfoldable pub operator_new : Malloc → ℕ → Mem → Outcome (Ptr × Mem)
unfolding new_of
operator_new malloc size m = new_of (malloc size m)

-- `operator new` with `std::nothrow`, also aligned: the alignment is not read.
unfoldable pub operator_new_nothrow : Malloc → ℕ → Mem → Option Ptr × Mem
operator_new_nothrow malloc size m = malloc size m

-- Each form of `operator delete`.
unfoldable pub operator_delete : (Option Ptr → Mem → Mem) → Option Ptr → Mem → Mem
operator_delete free p m = free p m

-- The state of the library: `errno`.
abbrev pub enoent : ℤ
enoent = pos 2

unfoldable pub strerror : ℤ → Bytes
strerror code = text "unsupported"

unfoldable pub qsort : Mem → Ptr → ℕ → ℕ → Mem
qsort m base count size = m

unfoldable pub getenv : Mem → Ptr → Option Ptr
getenv m name = none

-- The result, and the new `errno`.
unfoldable pub realpath : Mem → Ptr → Option Ptr → ℤ → Option Ptr × ℤ
realpath m path resolved errno = (none, enoent)

-- `strtol` and `strtoul`: the value, and what is stored through `end` where that is not null.
unfoldable pub strtol : Ptr → ℕ × Ptr
strtol str = (0, str)

-- `snprintf`, `vsnprintf`, `printf` and `fprintf`.
unfoldable pub print_failed : ℤ
print_failed = negsuc 0

-- `operator new` hands on a block that `malloc` gave and traps where it gave none, so that the caller
-- never sees null; the `nothrow` form returns what `malloc` does, null included.
pub operator_new-malloc :
    (malloc : Malloc) (size : ℕ) (m : Mem)
    → ((p : Ptr) × (m' : Mem) × (operator_new malloc size m ≡ returned (p, m'))
        × (operator_new_nothrow malloc size m ≡ (some p, m')))
      ⊎ ((operator_new malloc size m ≡ trapped) × ((operator_new_nothrow malloc size m).0 ≡ none))
unfolding operator_new operator_new_nothrow
operator_new-malloc malloc size m = by_result (malloc size m)
  where
    by_result :
        (r : Option Ptr × Mem)
        → ((p : Ptr) × (m' : Mem) × (new_of r ≡ returned (p, m')) × (r ≡ (some p, m')))
          ⊎ ((new_of r ≡ trapped) × (r.0 ≡ none))
    by_result (none, m') = inr (refl, refl)
    by_result (some p, m') = inl (p, m', refl, refl)
