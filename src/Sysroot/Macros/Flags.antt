-- ===== src/Sysroot/Macros/Flags.antt =====
-- The flags of `open` in support/wasm-sysroot/include/fcntl.h.
use dprint_clang_format.Base.{
  from_yes, all_of-Mem, is_yes, and_left, and_right, ◌==◌, if◌then◌else◌, length, all_of, ℕ, zero,
  suc, ◌≡◌, refl, Bool, true, false, not, ◌&&◌, Option, none, some, List, [], ◌∷◌, map, arith,
}
use mathlib.Core.List.{Memᴰ}
use Prim.Native.String.{String}
use Prim.Native.Nat.{bit_and, bit_or}
use native.Mathlib.Decide.{ℕ_discrete}
use dprint_clang_format.Sysroot.Headers.Descriptors.{fcntl_h}
use dprint_clang_format.Sysroot.Macros.{macros_of, object_value, value}

abbrev or_zero : Option ℕ → ℕ
or_zero none = 0
or_zero (some n) = n

unfoldable pub open_flag : String → ℕ
unfolding macros_of fcntl_h object_value value
open_flag name = or_zero (object_value ((macros_of fcntl_h).objects) 1 name)

abbrev pub open_flags : List String
open_flags = "O_CREAT" ∷ "O_EXCL" ∷ "O_TRUNC" ∷ "O_APPEND" ∷ "O_NONBLOCK" ∷ "O_CLOEXEC" ∷ []

abbrev pub access_modes : List String
access_modes = "O_RDONLY" ∷ "O_WRONLY" ∷ "O_RDWR" ∷ []

-- The flags that are chosen, on top of the access mode.
unfoldable pub joined : List String → List Bool → ℕ → ℕ
joined [] chosen word = word
joined (name ∷ names) [] word = word
joined (name ∷ names) (b ∷ chosen) word =
    let rest = joined names chosen word in if b then bit_or rest (open_flag name) else rest

-- A flag as the file descriptor's code tests it.
abbrev is_set : ℕ → String → Bool
is_set word name = not (bit_and word (open_flag name) == 0)

-- The two low bits hold the access mode.
unfoldable pub read_flags : ℕ → ℕ × List Bool
read_flags word = (bit_and word 3, map (is_set word) open_flags)

all_lists : ℕ → (List Bool → Bool) → Bool
all_lists zero test = test []
all_lists (suc n) test =
    all_lists n (λ bs. test (true ∷ bs)) && all_lists n (λ bs. test (false ∷ bs))

all_lists-length :
    (n : ℕ) (test : List Bool → Bool) (bs : List Bool)
    → all_lists n test ≡ true
    → length bs ≡ n
    → test bs ≡ true
unfolding all_lists
all_lists-length zero test [] h e = h
all_lists-length zero test (b ∷ bs) h e = absurd (omega arith)
all_lists-length (suc n) test [] h e = absurd (omega arith)
all_lists-length (suc n) test (true ∷ bs) h e =
    all_lists-length n (λ bs. test (true ∷ bs)) bs (and_left (all_lists n _) _ h) (omega arith)
all_lists-length (suc n) test (false ∷ bs) h e =
    all_lists-length n (λ bs. test (false ∷ bs)) bs (and_right (all_lists n _) _ h) (omega arith)

Read-discrete : Discrete (ℕ × List Bool)
Read-discrete = hlevel ℕ_discrete

reads_back : String → List Bool → Bool
unfolding Read-discrete read_flags joined
reads_back mode chosen = is_yes (
    Read-discrete (read_flags (joined open_flags chosen (open_flag mode))) (open_flag mode, chosen))

all_read : all_of (λ mode. all_lists 6 (reads_back mode)) access_modes ≡ true
unfolding all_of all_lists reads_back joined read_flags open_flag Read-discrete ℕ_discrete
all_read = refl

-- From an access mode joined with any choice of the six flags, the mode and the choice are read back.
pub read_flags-joined :
    (mode : String) (chosen : List Bool)
    → Memᴰ mode access_modes
    → length chosen ≡ length open_flags
    → read_flags (joined open_flags chosen (open_flag mode)) ≡ (open_flag mode, chosen)
unfolding reads_back
read_flags-joined mode chosen m e =
    from_yes
      (Read-discrete (read_flags (joined open_flags chosen (open_flag mode)))
        (open_flag mode, chosen))
      (all_lists-length 6 (reads_back mode) chosen
        (all_of-Mem (λ mode. all_lists 6 (reads_back mode)) access_modes mode all_read m) e)
