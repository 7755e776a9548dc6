-- ===== src/Sysroot/Complete/Headers.antt =====
-- What reading a header declares.
use dprint_clang_format.Base.{
  Option-cases, ℕ, zero, suc, Run, done, refl, true, [], Bool-cases, ◌≡◌, sym, ap, ◌∙◌, inl, inr,
  some, List, ◌∷◌,
}
use Prim.Native.String.{String}
use text.Mathlib.Text.{◌==◌}
use text.Mathlib.TextEquality.{eq_iff}
use mathlib.Core.Path.{subst}
use dprint_clang_format.Sysroot.Syntax.{Line}
use dprint_clang_format.Sysroot.Preprocess.{
  empty, taken, find_in, read_header, read_lines, Reading, is_active, is_defined,
}
use dprint_clang_format.Sysroot.Preprocess.Guards.{wraps}
use dprint_clang_format.Sysroot.Preprocess.Later.{from_done, Enters}
use dprint_clang_format.Sysroot.Preprocess.Once.{read_header-Later, skip_guarded}
use dprint_clang_format.Sysroot.Table.{some_inner}
use dprint_clang_format.Sysroot.Complete.{WellKept, Declares, Progress, stay, owner}
use dprint_clang_format.Sysroot.Complete.Lines.{read_lines-Reads}

-- The state in which the lines of a guarded header are read for the first time.
abbrev pub entered : String → Reading → Reading
entered guard r = record r { macros = (guard, empty) ∷ r.macros; branches = taken ∷ r.branches }

-- What follows the first two lines.
abbrev pub inside : List Line → List Line
inside (first ∷ (second ∷ rest)) = rest
inside lines = []

module _ (table : List (String × List Line)) (t : WellKept table) where
  -- The guards of two headers are different names.
  pub same_header :
      (name other : String) (lines others : List Line) (found : find_in name table ≡ some lines)
      (found' : find_in other table ≡ some others)
      → (t.guarded name lines found).guard ≡ (t.guarded other others found').guard
      → name ≡ other
  same_header name other lines others found found' e =
      some_inner
        (sym (t.owned name lines found) ∙ ap (λ n. owner n table) e ∙ t.owned other others found')

  -- The same header is found with the same lines, whatever the proof.
  same_rest :
      (name other : String) (lines others : List Line) (found : find_in name table ≡ some lines)
      (found' : find_in other table ≡ some others)
      → name ≡ other
      → (t.guarded name lines found).rest ≡ (t.guarded other others found').rest
  same_rest name other lines others found found' e =
      sym (ap inside (t.guarded name lines found).shape)
      ∙ ap inside (same_lines e)
      ∙ ap inside (t.guarded other others found').shape
    where
      same_lines : name ≡ other → lines ≡ others
      same_lines e = cc

  entered-Progress :
      (name : String) (lines : List Line) (found : find_in name table ≡ some lines) (r r' : Reading)
      → Progress table t (entered (t.guarded name lines found).guard r) r'
      → Declares table t (t.guarded name lines found).rest r'
      → Progress table t r r'
  entered-Progress name lines found r r' (more, new) all = (
    more,
    λ other others found' fresh known.
        elim (Bool-cases
          ((t.guarded name lines found).guard == (t.guarded other others found').guard)) [
            | inl hit ↦
                subst (λ x. Declares table t x r')
                  (same_rest name other lines others found found'
                    (same_header name other lines others found found' ((eq_iff _ _).0 hit)))
                  all
            | inr differs ↦ new other others found' (rw differs fresh) known
          ],
  )

  -- The lines of a header, whether they are read or not.
  lines-Progress :
      (enter : String → Reading → Run Reading) (name : String) (lines : List Line)
      (found : find_in name table ≡ some lines) (r r' : Reading)
      → Enters enter
      → ((name : String) (r r' : Reading)
          → is_active r ≡ true
          → enter name r ≡ done r'
          → Progress table t r r')
      → is_active r ≡ true
      → read_lines enter lines r ≡ done r'
      → Progress table t r r'
  unfolding read_lines wraps
  lines-Progress enter name lines found r r' h p active e =
      let w = t.guarded name lines found in
      elim (Bool-cases (is_defined w.guard r)) [
        | inl known ↦
            from_done (Progress table t r) (stay table t r r refl (λ x m. m))
              (sym (skip_guarded table t.guarded enter lines r w active known) ∙ e)
        | inr fresh ↦
            let (progress, all) =
              read_lines-Reads table t enter p h w.rest r.branches (entered w.guard r) r' []
                w.wrapped (t.clean name lines found) refl (rw (w.shape, fresh, active) at e) in
            entered-Progress name lines found r r' progress all
      ]

  pub read_header-Progress :
      (depth : ℕ) (name : String) (r r' : Reading)
      → is_active r ≡ true
      → read_header table depth name r ≡ done r'
      → Progress table t r r'
  unfolding read_header
  read_header-Progress zero name r r' active e = cc
  read_header-Progress (suc depth) name r r' active e = elim (Option-cases (find_in name table)) [
    | inl absent ↦
        from_done (Progress table t r) (stay table t r r refl (λ x m. m)) (rw absent at e)
    | inr (lines, found) ↦
        lines-Progress (read_header table depth) name lines found r r'
          (read_header-Later table t.guarded depth) (read_header-Progress depth) active
          (rw found at e)
  ]
