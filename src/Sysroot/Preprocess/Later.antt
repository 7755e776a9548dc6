-- ===== src/Sysroot/Preprocess/Later.antt =====
-- What reading the lines of a header changes.
use dprint_clang_format.Sysroot.Preprocess.{
  skipped, untaken, read_lines, then_read, Macro, Branch, taken, Reading, find_in, is_defined,
  is_active, read_line,
}
use dprint_clang_format.Sysroot.Preprocess.Guards.{
  closes, flips, keeps, opens, read_nil, is_nil, wraps_by, Effect, wraps, effect, after,
}
use dprint_clang_format.Base.{
  length, sym, ◌∙◌, [], ◌++◌, same, Bool, true, false, List, ◌∷◌, Run, done, out_of_fuel,
  if◌then◌else◌, ◌≡◌, refl, ap, is_some, Bool-cases, inl, inr,
}
use Prim.Native.String.{String}
use text.Mathlib.Text.{◌==◌}
use mathlib.Core.Path.{subst}
use dprint_clang_format.Sysroot.Syntax.{Line}

-- No macro is taken back.
abbrev pub Grows : Reading → Reading → Type 0
Grows r r' = (k : String) → is_defined k r ≡ true → is_defined k r' ≡ true

-- What a line comes to, whatever it is.
abbrev Follows : Line → Reading → Reading → Type 0
Follows line r r' =
    ((branch : Branch) × (r'.branches ≡ after (effect line) branch r.branches)) × Grows r r'

abbrev pub Later : Reading → Reading → Type 0
Later r r' = (r'.branches ≡ r.branches) × Grows r r'

pub from_done : {x r' : Reading} (Q : Reading → Type 0) → Q x → done x ≡ done r' → Q r'
from_done {x} {r'} Q q e = subst Q (inner e) q
  where
    unwrap : Run Reading → Reading
    unwrap (done r) = r
    unwrap out_of_fuel = x

    inner : done x ≡ done r' → x ≡ r'
    inner e = ap unwrap e

grows_defined :
    (b : Bool) (name k : String) (macro : Macro) (macros : List (String × Macro))
    → is_some (find_in k macros) ≡ true
    → is_some (find_in k (if b then (name, macro) ∷ macros else macros)) ≡ true
grows_defined true name k macro macros h = elim (Bool-cases (name == k)) [
  | inl e ↦ rw e
  | inr e ↦ rw e h
]
grows_defined false name k macro macros h = h

pub split_then :
    (x : Run Reading) (next : Reading → Run Reading) (r' : Reading)
    → then_read x next ≡ done r'
    → (r : Reading) × (x ≡ done r) × (next r ≡ done r')
split_then (done r) next r' e = (r, refl, e)
split_then out_of_fuel next r' e = cc

module _ (enter : String → Reading → Run Reading) where
  -- Reading the headers that are included leaves the conditionals as they are, and takes no macro back.
  abbrev pub Enters : Type 0
  Enters = (name : String) (r r' : Reading) → enter name r ≡ done r' → Later r r'

  enter_if :
      (b : Bool) (name : String) (r r' : Reading)
      → Enters
      → (if b then enter name r else done r) ≡ done r'
      → Later r r'
  enter_if true name r r' h e = h name r r' e
  enter_if false name r r' h e = from_done (Later r) (refl, λ k d. d) e

  define_if :
      (b : Bool) (name : String) (macro : Macro) (r r' : Reading)
      → done (if b then record r { macros = (name, macro) ∷ r.macros } else r) ≡ done r'
      → Later r r'
  define_if true name macro r r' e =
      from_done (Later r) (refl, λ k d. grows_defined true name k macro r.macros d) e
  define_if false name macro r r' e = from_done (Later r) (refl, λ k d. d) e

  emit_if :
      (b : Bool) (line : Line) (r r' : Reading)
      → done (if b then record r { declared = line ∷ r.declared } else r) ≡ done r'
      → Later r r'
  emit_if true line r r' e = from_done (Later r) (refl, λ k d. d) e
  emit_if false line r r' e = from_done (Later r) (refl, λ k d. d) e

  kept :
      (r r' : Reading) → Later r r' → ((branch : Branch) × (r'.branches ≡ r.branches)) × Grows r r'
  kept r r' (same, grows) = ((taken, same), grows)

  pub read_line-Follows :
      (line : Line) (r r' : Reading) → Enters → read_line enter line r ≡ done r' → Follows line r r'
  unfolding read_line
  read_line-Follows (Line.ifndef n) r r' h e =
      from_done (Follows (Line.ifndef n) r) ((_, refl), λ k d. d) e
  read_line-Follows (Line.ifdef n) r r' h e =
      from_done (Follows (Line.ifdef n) r) ((_, refl), λ k d. d) e
  read_line-Follows Line.otherwise r r' h e =
      from_done (Follows Line.otherwise r) ((taken, refl), λ k d. d) e
  read_line-Follows Line.endif r r' h e =
      from_done (Follows Line.endif r) ((taken, refl), λ k d. d) e
  read_line-Follows (Line.include n) r r' h e = kept r r' (enter_if (is_active r) n r r' h e)
  read_line-Follows (Line.include_next n) r r' h e =
      from_done (Follows (Line.include_next n) r) ((taken, refl), λ k d. d) e
  read_line-Follows (Line.define_empty n) r r' h e = kept r r' (define_if (is_active r) n _ r r' e)
  read_line-Follows (Line.define n x) r r' h e = kept r r' (define_if (is_active r) n _ r r' e)
  read_line-Follows (Line.define_call n p x) r r' h e =
      kept r r' (define_if (is_active r) n _ r r' e)
  read_line-Follows Line.extern_c r r' h e = kept r r' (emit_if (is_active r) _ r r' e)
  read_line-Follows Line.close_extern_c r r' h e = kept r r' (emit_if (is_active r) _ r r' e)
  read_line-Follows (Line.typedef n t) r r' h e = kept r r' (emit_if (is_active r) _ r r' e)
  read_line-Follows (Line.struct n fs) r r' h e = kept r r' (emit_if (is_active r) _ r r' e)
  read_line-Follows (Line.typedef_struct n fs) r r' h e = kept r r' (emit_if (is_active r) _ r r' e)
  read_line-Follows (Line.opaque n) r r' h e = kept r r' (emit_if (is_active r) _ r r' e)
  read_line-Follows (Line.variable n t) r r' h e = kept r r' (emit_if (is_active r) _ r r' e)
  read_line-Follows (Line.declare p) r r' h e = kept r r' (emit_if (is_active r) _ r r' e)

  abbrev LinesLater : List Line → List Branch → Reading → Reading → Type 0
  LinesLater lines rest r r' =
      read_lines enter lines r ≡ done r' → (r'.branches ≡ rest) × Grows r r'

  lines_by_effect :
      (e : Effect) (branch b : Branch) (pre rest : List Branch) (lines : List Line) (r r' : Reading)
      → wraps_by e (length pre) (is_nil lines) (wraps lines) ≡ true
      → r.branches ≡ after e branch (pre ++ (b ∷ rest))
      → ((pre : List Branch) (b : Branch)
          → wraps lines (length pre) ≡ true
          → r.branches ≡ pre ++ (b ∷ rest)
          → LinesLater lines rest r r')
      → LinesLater lines rest r r'
  lines_by_effect opens branch b pre rest lines r r' w q ih = ih (branch ∷ pre) b w q
  lines_by_effect keeps branch b pre rest lines r r' w q ih = ih pre b w q
  lines_by_effect flips branch b [] rest lines r r' w q ih = cc
  lines_by_effect flips branch b (taken ∷ pre) rest lines r r' w q ih = ih (untaken ∷ pre) b w q
  lines_by_effect flips branch b (untaken ∷ pre) rest lines r r' w q ih = ih (taken ∷ pre) b w q
  lines_by_effect flips branch b (skipped ∷ pre) rest lines r r' w q ih = ih (skipped ∷ pre) b w q
  lines_by_effect closes branch b [] rest lines r r' w q ih = λ e.
      from_done (λ x. (x.branches ≡ rest) × Grows r x) (q, λ k d. d)
        (sym (read_nil enter lines r w) ∙ e)
  lines_by_effect closes branch b (p ∷ pre) rest lines r r' w q ih = ih pre b w q

  pub read_lines-Later :
      (lines : List Line) (pre : List Branch) (b : Branch) (rest : List Branch) (r r' : Reading)
      → Enters
      → wraps lines (length pre) ≡ true
      → r.branches ≡ pre ++ (b ∷ rest)
      → LinesLater lines rest r r'
  unfolding wraps read_lines
  read_lines-Later [] pre b rest r r' h w q e = cc
  read_lines-Later (line ∷ lines) pre b rest r r' h w q e =
      let (s, first, others) = split_then (read_line enter line r) (read_lines enter lines) r' e in
      let ((branch, same), grows) = read_line-Follows line r s h first in
      let (closed_all, grows') =
        lines_by_effect (effect line) branch b pre rest lines s r' w
          (same ∙ ap (after (effect line) branch) q)
          (λ pre b w q. read_lines-Later lines pre b rest s r' h w q) others in
      (closed_all, λ k d. grows' k (grows k d))
