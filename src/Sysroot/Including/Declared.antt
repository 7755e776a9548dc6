-- ===== src/Sysroot/Including/Declared.antt =====
-- What the headers that a file includes have declared.
use dprint_clang_format.Base.{
  done, is_some, All-Mem, ◌≡◌, refl, ap, true, false, some, List, [], ◌∷◌,
}
use dprint_clang_format.Sysroot.Preprocess.Later.{from_done, split_then}
use mathlib.Core.Path.{subst}
use mathlib.Core.List.{Memᴰ}
use Prim.Native.String.{String}
use dprint_clang_format.Sysroot.Syntax.{Line}
use dprint_clang_format.Sysroot.Headers.{sysroot}
use dprint_clang_format.Sysroot.Preprocess.{find_in, Reading, is_active, is_defined, read_header}
use dprint_clang_format.Sysroot.Complete.{always, owner, Progress, stay, Progress-trans}
use dprint_clang_format.Sysroot.Complete.Headers.{inside, read_header-Progress}
use dprint_clang_format.Sysroot.Including.{include_all, include_depth, sysroot-WellKept}
use dprint_clang_format.Sysroot.Including.Again.{
  HasIt, include_all-Has, include_Later, still_active,
}

-- What a header declares in any case, where it is read for the first time.
unfoldable pub declarations : List Line → List Line
declarations lines = always (inside lines) 0

-- No header of the sysroot has been read.
abbrev pub IsFresh : Reading → Type 0
IsFresh r = (k : String) → is_some (owner k sysroot) ≡ true → is_defined k r ≡ false

abbrev ProgressIn : Reading → Reading → Type 0
ProgressIn = Progress sysroot sysroot-WellKept

include_all-Progress :
    (names : List String) (r r' : Reading)
    → is_active r ≡ true
    → include_all names r ≡ done r'
    → ProgressIn r r'
unfolding include_all
include_all-Progress [] r r' active e =
    from_done (ProgressIn r) (stay sysroot sysroot-WellKept r r refl (λ line m. m)) e
include_all-Progress (name ∷ names) r r' active e =
    let (s, first, others) =
      split_then (read_header sysroot include_depth name r) (include_all names) r' e in
    Progress-trans sysroot sysroot-WellKept r s r'
      (read_header-Progress sysroot sysroot-WellKept include_depth name r s active first)
      (include_all-Progress names s r' (still_active r s (include_Later name r s first) active)
        others)

-- From a state in which lines are read and no header of the sysroot has been, including headers in any
-- order, as often as one likes, comes to an end, and then each declaration that one of them has outside
-- of inner conditionals has been made.
pub include_all-declares :
    (names : List String) (r : Reading)
    → is_active r ≡ true
    → IsFresh r
    → (r' : Reading) × (include_all names r ≡ done r')
      × ((name : String) (lines : List Line) (line : Line)
          → Memᴰ name names
          → find_in name sysroot ≡ some lines
          → Memᴰ line (declarations lines)
          → Memᴰ line r'.declared)
unfolding declarations
include_all-declares names r active new =
    let (s, first, later, all) = include_all-Has names r active in
    (
      s,
      first,
      λ name lines line n found m.
          (include_all-Progress names r s active first).1 name lines found
            (new _ (rw (sysroot-WellKept.owned name lines found)))
            (All-Mem (λ name. HasIt name s) names name all n lines found) line
            (subst (λ x. Memᴰ line (always x 0))
              (ap inside (sysroot-WellKept.guarded name lines found).shape) m),
    )
