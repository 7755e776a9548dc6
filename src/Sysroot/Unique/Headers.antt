-- ===== src/Sysroot/Unique/Headers.antt =====
-- Reading a header, and the types that it defines.
use dprint_clang_format.Sysroot.Unique.Added.{lines_step}
use dprint_clang_format.Sysroot.Preprocess.Once.{skip_guarded, read_header-Later}
use dprint_clang_format.Sysroot.Preprocess.Later.{Enters, from_done, Grows}
use dprint_clang_format.Sysroot.Preprocess.Guards.{wraps}
use dprint_clang_format.Sysroot.Preprocess.{
  is_active, read_header, read_lines, find_in, Reading, is_defined,
}
use dprint_clang_format.Sysroot.Unique.Lines.{Adds, Begun, Owned, Midst, Begun-Grows}
use dprint_clang_format.Base.{
  Run, done, Option-cases, ℕ, zero, suc, Bool-cases, ◌≡◌, refl, sym, ap, ◌∙◌, inl, inr, Bool, true,
  false, some, List, [], ◌∷◌,
}
use Prim.Native.String.{String}
use text.Mathlib.Text.{◌==◌}
use text.Mathlib.TextEquality.{eq_iff}
use mathlib.Core.Path.{subst}
use dprint_clang_format.Sysroot.Syntax.{Line}
use dprint_clang_format.Sysroot.Complete.{WellKept}
use dprint_clang_format.Sysroot.Complete.Headers.{inside, entered}
use dprint_clang_format.Sysroot.Unique.{Once, key_owner, defines_once}

abbrev opening_guard : List Line → String
opening_guard (Line.ifndef guard ∷ rest) = guard
opening_guard lines = ""

module _ (table : List (String × List Line)) (t : WellKept table)
    (distinct : (name : String) (lines : List Line)
      → find_in name table ≡ some lines
      → defines_once (key_owner table) name (inside lines) [] ≡ true) where
  -- The same header has the same guard, whatever the proof that it was found.
  same_guard :
      (name : String) (lines others : List Line) (found : find_in name table ≡ some lines)
      (found' : find_in name table ≡ some others)
      → (t.guarded name lines found).guard ≡ (t.guarded name others found').guard
  same_guard name lines others found found' =
      sym (ap opening_guard (t.guarded name lines found).shape)
      ∙ ap opening_guard same_lines
      ∙ ap opening_guard (t.guarded name others found').shape
    where
      same_lines : lines ≡ others
      same_lines = cc

  Begun-known :
      (name : String) (lines : List Line) (found : find_in name table ≡ some lines) (r : Reading)
      → is_defined (t.guarded name lines found).guard r ≡ true
      → Begun table t name r
  Begun-known name lines found r known others found' =
      subst (λ g. is_defined g r ≡ true) (same_guard name lines others found found') known

  Grows-entered : (guard : String) (r : Reading) → Grows r (entered guard r)
  Grows-entered guard r k h = elim (Bool-cases (guard == k)) [ inl e ↦ rw e | inr e ↦ rw e h ]

  entered-Midst :
      (name : String) (lines : List Line) (found : find_in name table ≡ some lines) (r : Reading)
      → Owned table t r
      → Once r.declared
      → is_defined (t.guarded name lines found).guard r ≡ false
      → Midst table t name r [] (entered (t.guarded name lines found).guard r)
  entered-Midst name lines found r owned once new =
      let guard = (t.guarded name lines found).guard in
      record {
        owned = λ k n own there.
            Begun-Grows table t n r (entered guard r) (Grows-entered guard r) (owned k n own there);
        once = once;
        mine = λ k own there. absurd (clash (owned k name own there lines found) new);
        adds = λ k n own begun there. there;
        begun = Begun-known name lines found (entered guard r) (rw ((eq_iff guard guard).1 refl));
        still = Grows-entered guard r;
      }
    where
      clash : {b : Bool} → b ≡ true → b ≡ false → ⊥
      clash e f = cc

  -- What reading a header comes to.
  abbrev pub Result : Reading → Reading → Type 0
  Result r s = Owned table t s × Once s.declared × Adds table t r s

  unchanged : (r : Reading) → Owned table t r → Once r.declared → Result r r
  unchanged r owned once = (owned, once, λ k name own begun there. there)

  lines_result :
      (enter : String → Reading → Run Reading) (name : String) (lines : List Line)
      (found : find_in name table ≡ some lines) (r s : Reading)
      → Enters enter
      → ((n : String) (r s : Reading)
          → Owned table t r
          → Once r.declared
          → is_active r ≡ true
          → enter n r ≡ done s
          → Result r s)
      → Owned table t r
      → Once r.declared
      → is_active r ≡ true
      → read_lines enter lines r ≡ done s
      → Result r s
  unfolding read_lines wraps
  lines_result enter name lines found r s later includes owned once active e =
      let w = t.guarded name lines found in
      elim (Bool-cases (is_defined w.guard r)) [
        | inl known ↦
            from_done (Result r) (unchanged r owned once)
              (sym (skip_guarded table t.guarded enter lines r w active known) ∙ e)
        | inr new ↦
            let (all, m) =
              lines_step table t name r (λ begun. clash (begun lines found) new) enter later
                includes w.rest [] (entered w.guard r) s
                (subst (λ x. defines_once (key_owner table) name x [] ≡ true) (ap inside w.shape)
                  (distinct name lines found))
                (entered-Midst name lines found r owned once new)
                (rw (w.shape, new, active) at e) in
            (m.owned, m.once, m.adds)
      ]
    where
      clash : {b : Bool} → b ≡ true → b ≡ false → ⊥
      clash e f = cc

  pub read_header_result :
      (depth : ℕ) (name : String) (r s : Reading)
      → Owned table t r
      → Once r.declared
      → is_active r ≡ true
      → read_header table depth name r ≡ done s
      → Result r s
  unfolding read_header
  read_header_result zero name r s owned once active e = cc
  read_header_result (suc depth) name r s owned once active e =
      elim (Option-cases (find_in name table)) [
        | inl absent ↦ from_done (Result r) (unchanged r owned once) (rw absent at e)
        | inr (lines, found) ↦
            lines_result (read_header table depth) name lines found r s
              (read_header-Later table t.guarded depth) (read_header_result depth) owned once active
              (rw found at e)
      ]
