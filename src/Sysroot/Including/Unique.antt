-- ===== src/Sysroot/Including/Unique.antt =====
-- Types in a file that includes headers.
use dprint_clang_format.Base.{done, String, sym, some, List, ◌∷◌, ◌≡◌, refl, true, []}
use dprint_clang_format.Sysroot.Preprocess.{find_in, Reading, is_active}
use dprint_clang_format.Sysroot.Including.{
  include-Ends, include_all, include_depth, sysroot-WellKept,
}
use dprint_clang_format.Sysroot.Including.Again.{include_Later, still_active}
use dprint_clang_format.Sysroot.Syntax.{Line}
use dprint_clang_format.Sysroot.Table.{every-found, every}
use dprint_clang_format.Sysroot.Unique.{Once, defines_once, key_owner}
use dprint_clang_format.Sysroot.Unique.Headers.{read_header_result}
use dprint_clang_format.Sysroot.Unique.Lines.{Owned}
use mathlib.Core.Path.{subst}
use mathlib.Core.List.{Memᴰ}
use mathlib.Core.List.Memᴰ
use dprint_clang_format.Sysroot.Headers.{sysroot}
use dprint_clang_format.Sysroot.Complete.Headers.{inside}

sysroot-defines_once :
    every (λ name lines. defines_once (key_owner sysroot) name (inside lines) []) sysroot ≡ true
unfolding every sysroot defines_once key_owner
sysroot-defines_once = refl

sysroot-distinct :
    (name : String) (lines : List Line)
    → find_in name sysroot ≡ some lines
    → defines_once (key_owner sysroot) name (inside lines) [] ≡ true
sysroot-distinct name lines =
    every-found (λ name lines. defines_once (key_owner sysroot) name (inside lines) []) sysroot name
      lines sysroot-defines_once

Once-all :
    (names : List String) (r : Reading)
    → is_active r ≡ true
    → Owned sysroot sysroot-WellKept r
    → Once r.declared
    → (r' : Reading) × (include_all names r ≡ done r') × Once r'.declared
unfolding include_all
Once-all [] r active owned once = (r, refl, once)
Once-all (name ∷ names) r active owned once =
    let (s, first) = include-Ends name r in
    let (owned', once', adds) =
      read_header_result sysroot sysroot-WellKept sysroot-distinct include_depth name r s owned once
        active first in
    let (t, others, result) =
      Once-all names s (still_active r s (include_Later name r s first) active) owned' once' in
    (t, rw (first, others), result)

-- From a state in which lines are read and nothing has been declared, including headers in any order, as
-- often as one likes, comes to an end, and then no tag and no typedef name has been defined twice.
pub include_all-Once :
    (names : List String) (r : Reading)
    → is_active r ≡ true
    → r.declared ≡ []
    → (r' : Reading) × (include_all names r ≡ done r') × Once r'.declared
unfolding Once
include_all-Once names r active nothing =
    Once-all names r active
      (λ k name own (line, m, q). absurd (Memᴰ.not-nil (subst (Memᴰ line) nothing m)))
      (subst Once (sym nothing) tt)
