-- ===== src/Sysroot/Preprocess/Once.antt =====
-- Reading a header again.
use dprint_clang_format.Sysroot.Preprocess.{
  empty, skipped, read_header, untaken, read_lines, taken, Reading, find_in, is_defined, is_active,
}
use dprint_clang_format.Sysroot.Preprocess.Guards.{skip_lines, IsGuarded, wraps}
use dprint_clang_format.Base.{
  Option-cases, ℕ, zero, suc, not, some, [], true, List, ◌∷◌, Run, done, if◌then◌else◌, ◌≡◌, refl,
  Bool-cases, inl, inr,
}
use Prim.Native.String.{String}
use dprint_clang_format.Sysroot.Syntax.{Line}
use text.Mathlib.TextEquality.{eq_iff}
use dprint_clang_format.Sysroot.Preprocess.Later.{Later, Enters, from_done, read_lines-Later}

-- Each header of the table is guarded.
abbrev pub AllGuarded : List (String × List Line) → Type 0
AllGuarded table =
    (name : String) (lines : List Line) → find_in name table ≡ some lines → IsGuarded lines

module _ (table : List (String × List Line)) (g : AllGuarded table) where
  guarded-Later :
      (enter : String → Reading → Run Reading) (lines : List Line) (r r' : Reading)
      → Enters enter
      → IsGuarded lines
      → read_lines enter lines r ≡ done r'
      → Later r r'
  unfolding read_lines wraps
  guarded-Later enter lines r r' h w e =
      read_lines-Later enter (Line.define_empty w.guard ∷ w.rest) [] (_) r.branches
        (record r {
          branches =
              (if is_active r
                then (if not (is_defined w.guard r) then taken else untaken)
                else skipped)
              ∷ r.branches;
        })
        r' h w.wrapped refl (rw w.shape at e)

  -- A header that is included leaves the conditionals that are open as they are, and takes no macro
  -- back.
  pub read_header-Later :
      (fuel : ℕ) (name : String) (r r' : Reading)
      → read_header table fuel name r ≡ done r'
      → Later r r'
  unfolding read_header
  read_header-Later zero name r r' e = cc
  read_header-Later (suc fuel) name r r' e = elim (Option-cases (find_in name table)) [
    | inl absent ↦ from_done (Later r) (refl, λ k d. d) (rw absent at e)
    | inr (lines, found) ↦
        guarded-Later (read_header table fuel) lines r r' (read_header-Later fuel)
          (g name lines found) (rw found at e)
  ]

  -- Where the guard is defined, a header that is read adds nothing.
  pub skip_guarded :
      (enter : String → Reading → Run Reading) (lines : List Line) (r : Reading)
      (w : IsGuarded lines)
      → is_active r ≡ true
      → is_defined w.guard r ≡ true
      → read_lines enter lines r ≡ done r
  unfolding read_lines wraps
  skip_guarded enter lines r w active known =
      rw (w.shape, known, active)
        (skip_lines enter (Line.define_empty w.guard ∷ w.rest) 0 r r.branches w.wrapped)

  -- A header that was read has its guard defined.
  guard_known :
      (enter : String → Reading → Run Reading) (lines : List Line) (r r' : Reading)
      (w : IsGuarded lines)
      → Enters enter
      → is_active r ≡ true
      → read_lines enter lines r ≡ done r'
      → is_defined w.guard r' ≡ true
  unfolding read_lines wraps
  guard_known enter lines r r' w h active e = elim (Bool-cases (is_defined w.guard r)) [
    | inl known ↦ (guarded-Later enter lines r r' h w e).1 w.guard known
    | inr fresh ↦
        let defined = record r {
          macros = (w.guard, empty) ∷ r.macros;
          branches = taken ∷ r.branches;
        } in
        (read_lines-Later enter w.rest [] taken r.branches defined r' h w.wrapped refl
            (rw (w.shape, fresh, active) at e)).1
          w.guard (rw ((eq_iff w.guard w.guard).1 refl))
  ]

  -- The guard of the header is defined.
  abbrev pub Has : String → Reading → Type 0
  Has name r =
      (lines : List Line) (found : find_in name table ≡ some lines)
      → is_defined (g name lines found).guard r ≡ true

  pub Has-Later : (name : String) (r r' : Reading) → Later r r' → Has name r → Has name r'
  Has-Later name r r' later has lines found = later.1 _ (has lines found)

  pub read_header-Has :
      (fuel : ℕ) (name : String) (r r' : Reading)
      → is_active r ≡ true
      → read_header table fuel name r ≡ done r'
      → Has name r'
  unfolding read_header
  read_header-Has zero name r r' active e lines found = cc
  read_header-Has (suc fuel) name r r' active e lines found =
      guard_known (read_header table fuel) lines r r' (g name lines found) (read_header-Later fuel)
        active (rw found at e)

  pub Has-skips :
      (fuel : ℕ) (name : String) (r : Reading)
      → is_active r ≡ true
      → Has name r
      → read_header table (suc fuel) name r ≡ done r
  unfolding read_header
  Has-skips fuel name r active has = elim (Option-cases (find_in name table)) [
    | inl absent ↦ rw absent
    | inr (lines, found) ↦ rw found (
        skip_guarded (read_header table fuel) lines r (g name lines found) active (has lines found))
  ]
