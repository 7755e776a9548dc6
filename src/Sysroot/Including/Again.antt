-- ===== src/Sysroot/Including/Again.antt =====
-- Including the same headers again.
use dprint_clang_format.Base.{
  All-Mem, All-of, All, ap, ◌∙◌, List, [], ◌∷◌, done, String, ◌≡◌, refl, true,
}
use mathlib.Core.List.{Memᴰ}
use dprint_clang_format.Sysroot.Headers.{sysroot}
use dprint_clang_format.Sysroot.Preprocess.Once.{
  Has, Has-Later, Has-skips, read_header-Has, read_header-Later,
}
use dprint_clang_format.Sysroot.Preprocess.{Reading, active_in, is_active, read_header}
use dprint_clang_format.Sysroot.Preprocess.Later.{Later}
use dprint_clang_format.Sysroot.Including.{
  include_all, include_depth, include-Ends, sysroot-WellKept,
}

abbrev pub HasIt : String → Reading → Type 0
HasIt = Has sysroot sysroot-WellKept.guarded

pub include_Later :
    (name : String) (r r' : Reading)
    → read_header sysroot include_depth name r ≡ done r'
    → Later r r'
include_Later = read_header-Later sysroot sysroot-WellKept.guarded include_depth

pub still_active : (r r' : Reading) → Later r r' → is_active r ≡ true → is_active r' ≡ true
still_active r r' later active = ap active_in later.0 ∙ active

-- Including the headers comes to an end, and the last state has each of them.
pub include_all-Has :
    (names : List String) (r : Reading)
    → is_active r ≡ true
    → (r' : Reading) × (include_all names r ≡ done r')
      × Later r r'
      × All (λ name. HasIt name r') names
unfolding include_all
include_all-Has [] r active = (r, refl, (refl, λ k d. d), tt)
include_all-Has (name ∷ names) r active =
    let (s, first) = include-Ends name r in
    let later = include_Later name r s first in
    let (t, others, (same_open, grows), all) =
      include_all-Has names s (still_active r s later active) in
    (
      t,
      rw (first, others),
      (same_open ∙ later.0, λ k d. grows k (later.1 k d)),
      (
        Has-Later sysroot sysroot-WellKept.guarded name s t (same_open, grows)
            (read_header-Has sysroot sysroot-WellKept.guarded include_depth name r s active first),
        all,
      ),
    )

-- Headers that the state has add nothing.
include_all-skips :
    (names : List String) (r : Reading)
    → is_active r ≡ true
    → All (λ name. HasIt name r) names
    → include_all names r ≡ done r
unfolding include_all
include_all-skips [] r active has = refl
include_all-skips (name ∷ names) r active (has, all) =
    rw (Has-skips sysroot sysroot-WellKept.guarded 4 name r active has)
      (include_all-skips names r active all)

-- Where lines are read, including headers comes to an end, and including any of them again, in any order,
-- changes nothing.
pub include_all-again :
    (names again : List String) (r : Reading)
    → is_active r ≡ true
    → ((name : String) → Memᴰ name again → Memᴰ name names)
    → (r' : Reading) × (include_all names r ≡ done r') × (include_all again r' ≡ done r')
include_all-again names again r active within =
    let (s, first, later, all) = include_all-Has names r active in
    (
      s,
      first,
      include_all-skips again s (still_active r s later active) (
          All-of (λ name. HasIt name s) again
            (λ name m. All-Mem (λ name. HasIt name s) names name all (within name m))),
    )
