-- ===== src/Sysroot/Including/Objects.antt =====
-- What the macros stand for in a file that includes headers.
use dprint_clang_format.Base.{done, ◌≡◌, refl, List, [], ◌∷◌}
use Prim.Native.String.{String}
use dprint_clang_format.Sysroot.Preprocess.{Reading}
use dprint_clang_format.Sysroot.Values.{HasValues, read_header-HasValues}
use dprint_clang_format.Sysroot.Including.{include_all, include_depth, include-Ends}

-- Including headers in any order comes to an end and keeps it true that each macro without parameters
-- stands for the one text that the sysroot has for it.
pub include_all-HasValues :
    (names : List String) (r : Reading)
    → HasValues r
    → (r' : Reading) × (include_all names r ≡ done r') × HasValues r'
unfolding include_all
include_all-HasValues [] r has = (r, refl, has)
include_all-HasValues (name ∷ names) r has =
    let (s, first) = include-Ends name r in
    let (t, others, kept) =
      include_all-HasValues names s (read_header-HasValues include_depth name r s has first) in
    (t, rw (first, others), kept)
