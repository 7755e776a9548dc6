-- ===== src/Runtime/Cstring/Copy.antt =====
-- `strncpy` and `strdup` of src/wasm_runtime_core.cpp.
use dprint_clang_format.Base.{
  ℕ, ◌+◌, ◌-◌, ◌<◌, ◌≤◌, ◌≡◌, refl, ◌⊎◌, none, some, arith, Option, done, false, ltb, if◌then◌else◌,
}
use dprint_clang_format.Runtime.Memory.{Mem, Ptr, IsCstring, moved, inside}
use dprint_clang_format.Runtime.Block.Copy.{memcpy-moved}
use dprint_clang_format.Runtime.Cstring.Length.{strlen-done}
use dprint_clang_format.Runtime.Cstring.{Malloc, copy_into, duplicate, strdup}

-- The `n` bytes of the string at `src`, and NULs behind them, up to `count` bytes in all.
abbrev pub padded : Mem → Ptr → Ptr → ℕ → ℕ → Mem
padded m dest src n count a =
    if inside dest count a then (if ltb (a - dest) n then m (src + (a - dest)) else 0) else m a

-- The string lies apart from the `count` bytes that are written.
abbrev pub Apart : Ptr → ℕ → Ptr → ℕ → Type 0
Apart p n q k = (p + n < q) ⊎ (q + k ≤ p)

-- What the memory `g` holds after the string of `n` bytes at `p` in `m` has been copied to the block
-- that `malloc` gave, where it left `m'`. With no block nothing is written.
abbrev pub IsDuplicate : Mem → Ptr → ℕ → Mem → Option Ptr → Mem → Type 0
IsDuplicate m p n m' none g = g ≡ m'
IsDuplicate m p n m' (some q) g =
    IsCstring g q n
    × ((k : ℕ) → k < n → g (q + k) ≡ m (p + k))
    × ((a : Ptr) → inside q (n + 1) a ≡ false → g a ≡ m' a)

abbrev pub Fits : Ptr → ℕ → Option Ptr → Type 0
Fits p n none = Unit {0}
Fits p n (some q) = Apart p n q (n + 1)

moved-IsDuplicate :
    (m m' : Mem) (p q n : ℕ)
    → IsCstring m p n
    → ((k : ℕ) → k ≤ n → m' (p + k) ≡ m (p + k))
    → IsDuplicate m p n m' (some q) (moved m' q p (n + 1))
moved-IsDuplicate m m' p q n s kept = (
  record {
    before = λ k h. ground (arith, s.before k h, kept k (omega arith));
    at = ground (arith, s.at, kept n (omega arith));
  },
  λ k h. ground (arith, kept k (omega arith)),
  λ a out. ground arith,
)

-- `strdup` of a C string of `n` bytes, given more rounds than that, returns what `malloc` does for
-- `n + 1` bytes: null, with nothing written, or a block that then holds a copy of the string, with
-- no other byte written. That is if `malloc` keeps the string, and the block lies apart from it.
pub strdup-IsDuplicate :
    (malloc : Malloc) (fuel : ℕ) (m m' : Mem) (p n : ℕ) (r : Option Ptr)
    → IsCstring m p n
    → n < fuel
    → malloc (n + 1) m ≡ (r, m')
    → ((k : ℕ) → k ≤ n → m' (p + k) ≡ m (p + k))
    → Fits p n r
    → (g : Mem) × (strdup malloc fuel m p ≡ done (r, g)) × IsDuplicate m p n m' r g
unfolding strdup
strdup-IsDuplicate malloc fuel m m' p n none s enough e kept fits =
    (m', rw (strlen-done fuel m p n s enough, duplicate, e), refl)
strdup-IsDuplicate malloc fuel m m' p n (some q) s enough e kept fits = (
  moved m' q p (n + 1),
  rw (
    strlen-done fuel m p n s enough,
    duplicate,
    e,
    copy_into,
    memcpy-moved m' q p (n + 1) (omega arith),
  ),
  moved-IsDuplicate m m' p q n s kept,
)
