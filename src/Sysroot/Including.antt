-- ===== src/Sysroot/Including.antt =====
-- Including the headers under support/wasm-sysroot/include, in any order and as often as one likes.

pub mod Again
pub mod Declared
pub mod Objects
pub mod Scoped
pub mod Unique
use dprint_clang_format.Sysroot.Syntax.{Line}
use dprint_clang_format.Sysroot.Preprocess.Guards.{IsGuarded, as_guarded}
use dprint_clang_format.Base.{
  Bool, false, Option, none, All-Mem, All-of, Run, All, ap, ◌∙◌, List, [], ◌∷◌, done, Option-cases,
  ℕ, String, inl, inr, some, Bool-cases, is_some, ◌≡◌, refl, true,
}
use text.Mathlib.Text.{◌==◌}
use text.Mathlib.TextEquality.{eq_iff}
use mathlib.Core.Path.{subst}
use dprint_clang_format.Sysroot.Complete.{WellKept, owner, lines_clean}
use dprint_clang_format.Sysroot.Complete.Headers.{inside}
use mathlib.Core.List.{Memᴰ}
use dprint_clang_format.Sysroot.Headers.{sysroot}
use dprint_clang_format.Sysroot.Preprocess.Once.{
  AllGuarded, Has, Has-Later, Has-skips, read_header-Has, read_header-Later,
}
use dprint_clang_format.Sysroot.Preprocess.Depth.{Ends, is_within, found_within, read_header-Ends}
use dprint_clang_format.Sysroot.Preprocess.{
  Reading, find_in, active_in, is_active, then_read, read_header,
}
use dprint_clang_format.Sysroot.Preprocess.Later.{Later}
use dprint_clang_format.Sysroot.Table.{every-found, every, every-AllGuarded}

sysroot_guarded : every (λ k lines. is_some (as_guarded lines)) sysroot ≡ true
unfolding every sysroot as_guarded Bool-cases
sysroot_guarded = refl

pub sysroot-AllGuarded : AllGuarded sysroot
sysroot-AllGuarded = every-AllGuarded sysroot sysroot_guarded

-- sys/wait.h, sys/resource.h, sys/time.h and time.h include one another in this order; no chain is longer
-- but for a header of the compiler at its end.
abbrev pub include_depth : ℕ
include_depth = 5

sysroot_within : every (λ k lines. found_within (is_within sysroot 4) (some lines)) sysroot ≡ true
unfolding every sysroot is_within
sysroot_within = refl

name_within : (name : String) → is_within sysroot include_depth name ≡ true
unfolding is_within
name_within name = elim (Option-cases (find_in name sysroot)) [
  | inl absent ↦ rw absent
  | inr (lines, found) ↦ rw found (
      every-found (λ k lines. found_within (is_within sysroot 4) (some lines)) sysroot name lines
        sysroot_within found)
]

-- Reading any header comes to an end within five headers that include one another, whatever has been
-- read before it.
pub include-Ends : (name : String) (r : Reading) → Ends (read_header sysroot include_depth name r)
include-Ends name r = read_header-Ends sysroot include_depth name r (name_within name)

-- The headers that a file includes, one after another.
unfoldable pub include_all : List String → Reading → Run Reading
include_all [] r = done r
include_all (name ∷ names) r =
    then_read (read_header sysroot include_depth name r) (include_all names)

abbrev is_name : String → Option String → Bool
is_name name none = false
is_name name (some other) = other == name

unfoldable owned_by : String → List Line → Bool
owned_by name (Line.ifndef guard ∷ rest) = is_name name (owner guard sysroot)
owned_by name lines = false

sysroot_owned : every owned_by sysroot ≡ true
unfolding every owned_by owner sysroot
sysroot_owned = refl

sysroot_clean :
    every (λ name lines. lines_clean (λ n. owner n sysroot) (inside lines)) sysroot ≡ true
unfolding every lines_clean owner sysroot
sysroot_clean = refl

is_name-some : (name : String) (o : Option String) → is_name name o ≡ true → o ≡ some name
is_name-some name none h = cc
is_name-some name (some other) h = ap some ((eq_iff other name).0 h)

owned-guard :
    (name : String) (lines : List Line) (w : IsGuarded lines)
    → owned_by name lines ≡ true
    → owner w.guard sysroot ≡ some name
unfolding owned_by
owned-guard name lines w h = is_name-some name (owner w.guard sysroot) (rw w.shape at h)

pub sysroot-WellKept : WellKept sysroot
sysroot-WellKept = record {
  guarded = sysroot-AllGuarded;
  owned = λ name lines found.
      owned-guard name lines (sysroot-AllGuarded name lines found)
        (every-found owned_by sysroot name lines sysroot_owned found);
  clean = λ name lines found.
      subst (λ x. lines_clean (λ n. owner n sysroot) x ≡ true)
        (ap inside (sysroot-AllGuarded name lines found).shape)
        (every-found (λ name lines. lines_clean (λ n. owner n sysroot) (inside lines)) sysroot name
          lines sysroot_clean found);
}
