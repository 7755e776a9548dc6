-- ===== src/Sysroot/Scoped/Follows.antt =====
-- Reading the lines of a header to the end, where none uses a type name too early.
use dprint_clang_format.Base.{
  Run, done, and_left, and_right, Bool-cases, length, ◌≡◌, refl, sym, ap, ◌∙◌, ◌⊎◌, inl, inr, Bool,
  true, false, List, [], ◌∷◌, ◌++◌,
}
use Prim.Native.String.{String}
use mathlib.Core.List.{Memᴰ}
use dprint_clang_format.Sysroot.Syntax.{Line}
use dprint_clang_format.Sysroot.Preprocess.{
  Branch, taken, untaken, skipped, read_lines, read_line, Reading, is_active,
}
use dprint_clang_format.Sysroot.Preprocess.Guards.{
  wraps, wraps_by, Effect, effect, after, opens, flips, closes, keeps, is_nil, read_nil,
}
use dprint_clang_format.Sysroot.Preprocess.Later.{split_then, from_done, read_line-Follows, Enters}
use dprint_clang_format.Sysroot.Complete.{
  WellKept, Progress, owner, line_clean, lines_clean, is_declaration,
}
use dprint_clang_format.Sysroot.Complete.Lines.{read_line-Progress, read_line-declares}
use dprint_clang_format.Sysroot.Scoped.{Scoped, provided, offered, line_scoped, scan, scan_by}
use dprint_clang_format.Sysroot.Scoped.Lines.{
  Offers, Finished, Finished-Progress, Includes, read_line-Scoped, read_line-Offers, Offers-more,
}

module _ (table : List (String × List Line)) (t : WellKept table) (clear : String → Bool)
    (seen : List String) (enter : String → Reading → Run Reading)
    (includes : Includes table t clear seen enter)
    (enters : (name : String) (r r' : Reading)
      → is_active r ≡ true
      → enter name r ≡ done r'
      → Progress table t r r') where
  abbrev pub EndsScoped : List Line → List Branch → Reading → Reading → Type 0
  EndsScoped lines rest r r' =
      (pre : List Branch) (names : List String)
      → wraps lines (length pre) ≡ true
      → lines_clean (λ n. owner n table) lines ≡ true
      → r.branches ≡ pre ++ (taken ∷ rest)
      → Offers names r
      → scan (provided table) clear lines (length pre) names ≡ true
      → read_lines enter lines r ≡ done r'
      → Scoped r'.declared

  by_effect :
      (e : Effect) (branch : Branch) (pre rest : List Branch) (names : List String) (line : Line)
      (lines : List Line) (s r' : Reading)
      → wraps_by e (length pre) (is_nil lines) (wraps lines) ≡ true
      → lines_clean (λ n. owner n table) lines ≡ true
      → s.branches ≡ after e branch (pre ++ (taken ∷ rest))
      → Offers names s
      → (pre ≡ [] → Offers (offered (provided table) clear line names) s)
      → scan_by (provided table) clear e (length pre) line names (scan (provided table) clear lines)
        ≡ true
      → Scoped s.declared
      → EndsScoped lines rest s r'
      → read_lines enter lines s ≡ done r'
      → Scoped r'.declared
  by_effect opens branch pre rest names line lines s r' w c q o n v h ih =
      ih (branch ∷ pre) names w c q o v
  by_effect keeps branch [] rest names line lines s r' w c q o n v h ih = ih [] _ w c q (n refl) v
  by_effect keeps branch (p ∷ pre) rest names line lines s r' w c q o n v h ih =
      ih (p ∷ pre) names w c q o v
  by_effect flips branch [] rest names line lines s r' w c q o n v h ih = cc
  by_effect flips branch (taken ∷ pre) rest names line lines s r' w c q o n v h ih =
      ih (untaken ∷ pre) names w c q o v
  by_effect flips branch (untaken ∷ pre) rest names line lines s r' w c q o n v h ih =
      ih (taken ∷ pre) names w c q o v
  by_effect flips branch (skipped ∷ pre) rest names line lines s r' w c q o n v h ih =
      ih (skipped ∷ pre) names w c q o v
  by_effect closes branch [] rest names line lines s r' w c q o n v h ih =
      λ e. from_done (λ x. Scoped x.declared) h (sym (read_nil enter lines s w) ∙ e)
  by_effect closes branch (p ∷ pre) rest names line lines s r' w c q o n v h ih =
      ih pre names w c q o v

  declared_now :
      (line : Line) (r s : Reading)
      → is_active r ≡ true
      → read_line enter line r ≡ done s
      → Memᴰ line s.declared ⊎ (is_declaration line ≡ false)
  declared_now line r s a e = elim (Bool-cases (is_declaration line)) [
    | inl d ↦ inl (read_line-declares table t enter enters line r s d a e)
    | inr d ↦ inr d
  ]

  active_at :
      (r : Reading) (pre rest : List Branch)
      → r.branches ≡ pre ++ (taken ∷ rest)
      → pre ≡ []
      → is_active r ≡ true
  active_at r pre rest q e = rw (q, e)

  pub read_lines-Scoped :
      Enters enter
      → (lines : List Line) (rest : List Branch) (r r' : Reading) → Finished table t seen r
      → Scoped r.declared
      → EndsScoped lines rest r r'
  unfolding wraps read_lines lines_clean scan
  read_lines-Scoped h [] rest r r' f d pre names w c q o v e = cc
  read_lines-Scoped h (line ∷ lines) rest r r' f d pre names w c q o v e =
      let (s, first, others) = split_then (read_line enter line r) (read_lines enter lines) r' e in
      let ((branch, same_open), grows) = read_line-Follows enter line r s h first in
      let step =
        read_line-Progress table t enter enters line r s
          (and_left (line_clean (λ n. owner n table) line) _ c) first in
      let fits = and_left (line_scoped (provided table) clear line names) _ v in
      let scoped =
        read_line-Scoped table t clear seen enter includes line names r s fits o f d first in
      let still = Offers-more table t clear seen enter includes names r s step o in
      by_effect (effect line) branch pre rest names line lines s r' w
        (and_right (line_clean (λ n. owner n table) line) _ c)
        (same_open ∙ ap (after (effect line) branch) q) still
        (λ p.
          read_line-Offers table t clear seen enter includes line names r s
            (active_at r pre rest q p) fits f d
            (declared_now line r s (active_at r pre rest q p) first) still first)
        (and_right (line_scoped (provided table) clear line names) _ v) scoped
        (read_lines-Scoped h lines rest s r' (Finished-Progress table t seen r s f step) scoped)
        others
