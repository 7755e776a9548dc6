-- ===== src/Sysroot/Scoped/Headers.antt =====
-- Reading a header that uses no type name too early.
use dprint_clang_format.Base.{
  Run, and_left, and_right, zero, suc, Bool, not, done, Bool-cases, Option-cases, ℕ, ◌≡◌, refl, sym,
  ap, ◌∙◌, inl, inr, true, false, Option, none, some, List, [], ◌∷◌,
}
use Prim.Native.String.{String}
use text.Mathlib.Text.{◌==◌}
use text.Mathlib.TextEquality.{eq_iff}
use mathlib.Core.Path.{subst}
use mathlib.Core.Logic.{⊎_elim}
use mathlib.Core.List.{Memᴰ}
use mathlib.Core.List.Memᴰ
use dprint_clang_format.Sysroot.Syntax.{Line}
use dprint_clang_format.Sysroot.Preprocess.{
  find_in, read_header, read_lines, Reading, is_active, is_defined,
}
use dprint_clang_format.Sysroot.Preprocess.Guards.{wraps}
use dprint_clang_format.Sysroot.Preprocess.Later.{from_done, Enters}
use dprint_clang_format.Sysroot.Preprocess.Once.{read_header-Later, read_header-Has, skip_guarded}
use dprint_clang_format.Sysroot.Table.{elem}
use dprint_clang_format.Sysroot.Complete.{WellKept, Progress, always}
use dprint_clang_format.Sysroot.Complete.Headers.{
  inside, entered, same_header, read_header-Progress,
}
use dprint_clang_format.Sysroot.Scoped.{
  Scoped, Offered, gives, names_given, with_name, provided, scan, in_order,
}
use dprint_clang_format.Sysroot.Scoped.Lines.{
  Offers, Offered-more, Finished, Finished-Progress, Includes,
}
use dprint_clang_format.Sysroot.Scoped.Follows.{read_lines-Scoped}

Offered-with :
    (o : Option String) (line : Line) (lines : List Line) (name : String)
    → gives line ≡ o
    → (Memᴰ name (names_given lines) → Offered name lines)
    → Memᴰ name (with_name o (names_given lines))
    → Offered name (line ∷ lines)
Offered-with none line lines name e h m =
    Offered-more name lines (line ∷ lines) (λ x. Memᴰ.tail) (h m)
Offered-with (some given) line lines name e h m =
    ⊎_elim (λ q. (line, Memᴰ.head refl, e ∙ ap some (sym q)))
      (λ n. Offered-more name lines (line ∷ lines) (λ x. Memᴰ.tail) (h n)) (Memᴰ.cases_cons m)

names_given-Offered :
    (lines : List Line) (name : String) → Memᴰ name (names_given lines) → Offered name lines
unfolding names_given
names_given-Offered [] name m = absurd (Memᴰ.not-nil m)
names_given-Offered (line ∷ lines) name m =
    Offered-with (gives line) line lines name refl (names_given-Offered lines name) m

module _ (table : List (String × List Line)) (t : WellKept table) where
  inside_rest :
      (name : String) (lines : List Line) (found : find_in name table ≡ some lines)
      → inside lines ≡ (t.guarded name lines found).rest
  inside_rest name lines found = ap inside (t.guarded name lines found).shape

  -- A header that has been read has declared its names.
  provided-Offers :
      (seen : List String) (depth : ℕ) (name : String) (r r' : Reading)
      → elem name seen ≡ false
      → Finished table t seen r'
      → is_active r ≡ true
      → read_header table depth name r ≡ done r'
      → Offers (provided table name) r'
  unfolding provided
  provided-Offers seen depth name r r' out finished active e given m =
      elim (Option-cases (find_in name table)) [
        | inl absent ↦ absurd (Memᴰ.not-nil (rw absent at m))
        | inr (lines, found) ↦
            Offered-more given (always (inside lines) 0) r'.declared
              (λ line n.
                finished name lines found out
                  (read_header-Has table t.guarded depth name r r' active e lines found) line
                  (subst (λ x. Memᴰ line (always x 0)) (inside_rest name lines found) n))
              (names_given-Offered (always (inside lines) 0) given (rw found at m))
      ]

  entered-Finished :
      (seen : List String) (name : String) (lines : List Line)
      (found : find_in name table ≡ some lines) (r : Reading)
      → Finished table t seen r
      → Finished table t (name ∷ seen) (entered (t.guarded name lines found).guard r)
  unfolding elem
  entered-Finished seen name lines found r finished other others found' out known =
      elim (Bool-cases (name == other)) [
        | inl hit ↦ absurd (clash (rw hit at out))
        | inr differs ↦
            elim (Bool-cases
              ((t.guarded name lines found).guard == (t.guarded other others found').guard)) [
                | inl hit ↦ absurd (
                    clash (
                      sym (
                        (eq_iff name other).1 (
                          same_header table t name other lines others found found'
                            ((eq_iff _ _).0 hit)))
                      ∙ differs))
                | inr apart ↦ finished other others found' (rw differs at out) (rw apart at known)
              ]
      ]
    where
      clash : true ≡ false → ⊥
      clash e = cc

  lines-Scoped :
      (clear : String → Bool) (seen : List String) (enter : String → Reading → Run Reading)
      (name : String) (lines : List Line) (found : find_in name table ≡ some lines) (r r' : Reading)
      → Enters enter
      → ((n : String) (r r' : Reading)
          → is_active r ≡ true
          → enter n r ≡ done r'
          → Progress table t r r')
      → Includes table t clear (name ∷ seen) enter
      → scan (provided table) clear (inside lines) 0 [] ≡ true
      → Finished table t seen r
      → Scoped r.declared
      → is_active r ≡ true
      → read_lines enter lines r ≡ done r'
      → Scoped r'.declared
  unfolding read_lines wraps
  lines-Scoped clear seen enter name lines found r r' h p includes v finished scoped active e =
      let w = t.guarded name lines found in
      elim (Bool-cases (is_defined w.guard r)) [
        | inl known ↦
            from_done (λ x. Scoped x.declared) scoped
              (sym (skip_guarded table t.guarded enter lines r w active known) ∙ e)
        | inr new ↦
            read_lines-Scoped table t clear (name ∷ seen) enter includes p h w.rest r.branches
              (entered w.guard r) r' (entered-Finished seen name lines found r finished) scoped []
              [] w.wrapped (t.clean name lines found) refl (λ n m. absurd (Memᴰ.not-nil m))
              (subst (λ x. scan (provided table) clear x 0 [] ≡ true) (inside_rest name lines found)
                v)
              (rw (w.shape, new, active) at e)
      ]

  not_seen : (b : Bool) → not b ≡ true → b ≡ false
  not_seen true e = cc
  not_seen false e = refl

  in_order-unseen :
      (depth : ℕ) (seen : List String) (name : String)
      → in_order table depth seen name ≡ true
      → elem name seen ≡ false
  unfolding in_order
  in_order-unseen zero seen name v = cc
  in_order-unseen (suc depth) seen name v =
      not_seen (elem name seen) (and_left (not (elem name seen)) _ v)

  pub read_header-Scoped :
      (depth : ℕ) (seen : List String) (name : String) (r r' : Reading)
      → in_order table depth seen name ≡ true
      → Finished table t seen r
      → Scoped r.declared
      → is_active r ≡ true
      → read_header table depth name r ≡ done r'
      → Scoped r'.declared
  unfolding read_header in_order
  read_header-Scoped zero seen name r r' v f d a e = cc
  read_header-Scoped (suc depth) seen name r r' v f d a e =
      elim (Option-cases (find_in name table)) [
        | inl absent ↦ from_done (λ x. Scoped x.declared) d (rw absent at e)
        | inr (lines, found) ↦
            lines-Scoped (in_order table depth (name ∷ seen)) seen (read_header table depth) name
              lines found r r' (read_header-Later table t.guarded depth)
              (read_header-Progress table t depth)
              (λ n s s' c g h b q. (
                read_header-Scoped depth (name ∷ seen) n s s' c g h b q,
                provided-Offers (name ∷ seen) depth n s s' (in_order-unseen depth (name ∷ seen) n c)
                    (Finished-Progress table t (name ∷ seen) s s' g
                      (read_header-Progress table t depth n s s' b q))
                    b q,
              ))
              (and_right (not (elem name seen)) _ (rw found at v)) f d a (rw found at e)
      ]
