-- ===== src/Sysroot/Complete/Lines.antt =====
-- What reading the lines of a header declares.
use dprint_clang_format.Base.{
  and_left, and_right, length, same, sym, ap, ◌∙◌, ◌++◌, Run, done, refl, if◌then◌else◌, ◌≡◌, Bool,
  true, false, List, [], ◌∷◌,
}
use Prim.Native.String.{String}
use mathlib.Core.Path.{subst}
use mathlib.Core.Logic.{⊎_elim}
use dprint_clang_format.Sysroot.Preprocess.Guards.{
  read_nil, wraps, wraps_by, Effect, effect, after, opens, flips, closes, keeps, is_nil,
}
use mathlib.Core.List.{Memᴰ}
use mathlib.Core.List.Memᴰ
use dprint_clang_format.Sysroot.Syntax.{Line}
use dprint_clang_format.Sysroot.Preprocess.{
  Branch, taken, untaken, skipped, read_lines, read_line, Reading, is_active,
}
use dprint_clang_format.Sysroot.Preprocess.Later.{split_then, from_done, read_line-Follows, Enters}
use dprint_clang_format.Sysroot.Complete.{
  WellKept, Progress, stay, Progress-trans, define-Progress, same-Progress, always, always_by,
  is_declaration, owner, line_clean, lines_clean,
}

module _ (table : List (String × List Line)) (t : WellKept table)
    (enter : String → Reading → Run Reading)
    (enters : (name : String) (r r' : Reading)
      → is_active r ≡ true
      → enter name r ≡ done r'
      → Progress table t r r') where
  if_enters :
      (b : Bool) (name : String) (r r' : Reading)
      → is_active r ≡ b
      → (if b then enter name r else done r) ≡ done r'
      → Progress table t r r'
  if_enters true name r r' a e = enters name r r' a e
  if_enters false name r r' a e =
      from_done (Progress table t r) (stay table t r r refl (λ line m. m)) e

  emitted-Progress :
      (line : Line) (r r' : Reading)
      → done (if is_active r then record r { declared = line ∷ r.declared } else r) ≡ done r'
      → Progress table t r r'
  emitted-Progress line r r' e =
      from_done (Progress table t r)
        (same-Progress table t (is_active r) r (record r { declared = line ∷ r.declared })
          (stay table t r (record r { declared = line ∷ r.declared }) refl (λ x m. Memᴰ.tail m)))
        e

  branches-Progress :
      (branches : List Branch) (r r' : Reading)
      → done (record r { branches = branches }) ≡ done r'
      → Progress table t r r'
  branches-Progress branches r r' e =
      from_done (Progress table t r)
        (stay table t r (record r { branches = branches }) refl (λ x m. m)) e

  pub read_line-Progress :
      (line : Line) (r r' : Reading)
      → line_clean (λ n. owner n table) line ≡ true
      → read_line enter line r ≡ done r'
      → Progress table t r r'
  unfolding read_line
  read_line-Progress (Line.ifndef n) r r' c e = branches-Progress _ r r' e
  read_line-Progress (Line.ifdef n) r r' c e = branches-Progress _ r r' e
  read_line-Progress Line.otherwise r r' c e = branches-Progress _ r r' e
  read_line-Progress Line.endif r r' c e = branches-Progress _ r r' e
  read_line-Progress (Line.include n) r r' c e = if_enters (is_active r) n r r' refl e
  read_line-Progress (Line.include_next n) r r' c e =
      from_done (Progress table t r) (stay table t r r refl (λ x m. m)) e
  read_line-Progress (Line.define_empty n) r r' c e =
      from_done (Progress table t r)
        (same-Progress table t (is_active r) r _ (define-Progress table t n _ r c)) e
  read_line-Progress (Line.define n x) r r' c e =
      from_done (Progress table t r)
        (same-Progress table t (is_active r) r _ (define-Progress table t n _ r c)) e
  read_line-Progress (Line.define_call n p x) r r' c e =
      from_done (Progress table t r)
        (same-Progress table t (is_active r) r _ (define-Progress table t n _ r c)) e
  read_line-Progress Line.extern_c r r' c e = emitted-Progress _ r r' e
  read_line-Progress Line.close_extern_c r r' c e = emitted-Progress _ r r' e
  read_line-Progress (Line.typedef n t) r r' c e = emitted-Progress _ r r' e
  read_line-Progress (Line.struct n fs) r r' c e = emitted-Progress _ r r' e
  read_line-Progress (Line.typedef_struct n fs) r r' c e = emitted-Progress _ r r' e
  read_line-Progress (Line.opaque n) r r' c e = emitted-Progress _ r r' e
  read_line-Progress (Line.variable n t) r r' c e = emitted-Progress _ r r' e
  read_line-Progress (Line.declare p) r r' c e = emitted-Progress _ r r' e

  emitted_mem :
      (line : Line) (r r' : Reading)
      → is_active r ≡ true
      → done (if is_active r then record r { declared = line ∷ r.declared } else r) ≡ done r'
      → Memᴰ line r'.declared
  emitted_mem line r r' a e = from_done (λ x. Memᴰ line x.declared) (Memᴰ.head refl) (rw a at e)

  pub read_line-declares :
      (line : Line) (r r' : Reading)
      → is_declaration line ≡ true
      → is_active r ≡ true
      → read_line enter line r ≡ done r'
      → Memᴰ line r'.declared
  unfolding read_line
  read_line-declares (Line.typedef n t) r r' d a e = emitted_mem _ r r' a e
  read_line-declares (Line.struct n fs) r r' d a e = emitted_mem _ r r' a e
  read_line-declares (Line.typedef_struct n fs) r r' d a e = emitted_mem _ r r' a e
  read_line-declares (Line.opaque n) r r' d a e = emitted_mem _ r r' a e
  read_line-declares (Line.variable n t) r r' d a e = emitted_mem _ r r' a e
  read_line-declares (Line.declare p) r r' d a e = emitted_mem _ r r' a e
  read_line-declares (Line.ifndef n) r r' d a e = cc
  read_line-declares (Line.ifdef n) r r' d a e = cc
  read_line-declares Line.otherwise r r' d a e = cc
  read_line-declares Line.endif r r' d a e = cc
  read_line-declares (Line.include n) r r' d a e = cc
  read_line-declares (Line.include_next n) r r' d a e = cc
  read_line-declares (Line.define_empty n) r r' d a e = cc
  read_line-declares (Line.define n x) r r' d a e = cc
  read_line-declares (Line.define_call n p x) r r' d a e = cc
  read_line-declares Line.extern_c r r' d a e = cc
  read_line-declares Line.close_extern_c r r' d a e = cc

  -- What follows from reading the lines: nothing is lost, and what always stands in them is declared.
  abbrev pub Reads : List Line → List Line → Reading → Reading → Type 0
  Reads lines all r r' =
      read_lines enter lines r ≡ done r'
      → Progress table t r r' × ((line : Line) → Memᴰ line all → Memᴰ line r'.declared)

  declared_first :
      (b : Bool) (line : Line) (lines all : List Line) (r r' : Reading)
      → (b ≡ true → Memᴰ line r.declared)
      → Reads lines all r r'
      → Reads lines (if b then line ∷ all else all) r r'
  declared_first true line lines all r r' h reads e =
      let (progress, others) = reads e in
      (
        progress,
        λ x m.
            ⊎_elim (λ q. progress.0 x (subst (λ y. Memᴰ y r.declared) (sym q) (h refl))) (others x)
              (Memᴰ.cases_cons m),
      )
  declared_first false line lines all r r' h reads e = reads e

  nothing_more : (lines : List Line) (r r' : Reading) → is_nil lines ≡ true → Reads lines [] r r'
  nothing_more lines r r' w e =
      from_done (λ x. Progress table t r x × ((line : Line) → Memᴰ line [] → Memᴰ line x.declared))
        (stay table t r r refl (λ x m. m), λ line m. absurd (Memᴰ.not-nil m))
        (sym (read_nil enter lines r w) ∙ e)

  abbrev pub Follow : List Line → List Branch → Reading → Reading → Type 0
  Follow lines rest r r' =
      (pre : List Branch)
      → wraps lines (length pre) ≡ true
      → lines_clean (λ n. owner n table) lines ≡ true
      → r.branches ≡ pre ++ (taken ∷ rest)
      → Reads lines (always lines (length pre)) r r'

  Follow-by_effect :
      (e : Effect) (branch : Branch) (pre rest : List Branch) (line : Line) (lines : List Line)
      (r r' : Reading)
      → wraps_by e (length pre) (is_nil lines) (wraps lines) ≡ true
      → lines_clean (λ n. owner n table) lines ≡ true
      → r.branches ≡ after e branch (pre ++ (taken ∷ rest))
      → (pre ≡ [] → is_declaration line ≡ true → Memᴰ line r.declared)
      → Follow lines rest r r'
      → Reads lines (always_by e (length pre) line (always lines)) r r'
  Follow-by_effect opens branch pre rest line lines r r' w c q d ih = ih (branch ∷ pre) w c q
  Follow-by_effect keeps branch [] rest line lines r r' w c q d ih =
      declared_first (is_declaration line) line lines (always lines 0) r r' (d refl) (ih [] w c q)
  Follow-by_effect keeps branch (p ∷ pre) rest line lines r r' w c q d ih = ih (p ∷ pre) w c q
  Follow-by_effect flips branch [] rest line lines r r' w c q d ih = cc
  Follow-by_effect flips branch (taken ∷ pre) rest line lines r r' w c q d ih =
      ih (untaken ∷ pre) w c q
  Follow-by_effect flips branch (untaken ∷ pre) rest line lines r r' w c q d ih =
      ih (taken ∷ pre) w c q
  Follow-by_effect flips branch (skipped ∷ pre) rest line lines r r' w c q d ih =
      ih (skipped ∷ pre) w c q
  Follow-by_effect closes branch [] rest line lines r r' w c q d ih = nothing_more lines r r' w
  Follow-by_effect closes branch (p ∷ pre) rest line lines r r' w c q d ih = ih pre w c q

  active_here :
      (r : Reading) (pre rest : List Branch)
      → r.branches ≡ pre ++ (taken ∷ rest)
      → pre ≡ []
      → is_active r ≡ true
  active_here r pre rest q e = rw (q, e)

  pub read_lines-Reads :
      Enters enter
      → (lines : List Line) (rest : List Branch) (r r' : Reading) → Follow lines rest r r'
  unfolding wraps read_lines always lines_clean
  read_lines-Reads h [] rest r r' pre w c q e = cc
  read_lines-Reads h (line ∷ lines) rest r r' pre w c q e =
      let (s, first, others) = split_then (read_line enter line r) (read_lines enter lines) r' e in
      let ((branch, same), grows) = read_line-Follows enter line r s h first in
      let step =
        read_line-Progress line r s (and_left (line_clean (λ n. owner n table) line) _ c) first in
      let (progress, all) =
        Follow-by_effect (effect line) branch pre rest line lines s r' w
          (and_right (line_clean (λ n. owner n table) line) _ c)
          (same ∙ ap (after (effect line) branch) q)
          (λ e d. read_line-declares line r s d (active_here r pre rest q e) first)
          (read_lines-Reads h lines rest s r') others in
      (Progress-trans table t r s r' step progress, all)
