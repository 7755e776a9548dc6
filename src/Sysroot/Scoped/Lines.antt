-- ===== src/Sysroot/Scoped/Lines.antt =====
-- Reading lines that use no type name too early.
use dprint_clang_format.Sysroot.Scoped.{
  offered, gives, compiler_names, uses, Offered, Scoped, provided, line_scoped,
}
use dprint_clang_format.Sysroot.Complete.{is_declaration, WellKept, Declares, Progress}
use dprint_clang_format.Base.{
  sym, ap, ◌∙◌, if◌then◌else◌, refl, ◌∷◌, Run, done, Bool-cases, all_of, all_of-Mem, ◌≡◌, ◌⊎◌, inl,
  inr, Bool, true, false, some, List, ◌++◌,
}
use Prim.Native.String.{String}
use mathlib.Core.Logic.{⊎_elim}
use mathlib.Core.List.{Memᴰ}
use mathlib.Core.List.Memᴰ
use dprint_clang_format.Sysroot.Syntax.{Line}
use dprint_clang_format.Sysroot.Preprocess.{find_in, read_line, Reading, is_active, is_defined}
use dprint_clang_format.Sysroot.Preprocess.Later.{from_done}
use dprint_clang_format.Sysroot.Table.{elem, elem-Mem}

-- The names have been declared.
abbrev pub Offers : List String → Reading → Type 0
Offers names r = (name : String) → Memᴰ name names → Offered name r.declared

pub Offered-more :
    (name : String) (ls ms : List Line)
    → ((line : Line) → Memᴰ line ls → Memᴰ line ms)
    → Offered name ls
    → Offered name ms
Offered-more name ls ms more (line, m, e) = (line, more line m, e)

module _ (table : List (String × List Line)) (t : WellKept table) where
  -- Of the headers that are not being read, those that have been read are complete.
  abbrev pub Finished : List String → Reading → Type 0
  Finished seen r =
      (name : String) (lines : List Line) (found : find_in name table ≡ some lines)
      → elem name seen ≡ false
      → is_defined (t.guarded name lines found).guard r ≡ true
      → Declares table t (t.guarded name lines found).rest r

  pub Finished-Progress :
      (seen : List String) (r r' : Reading)
      → Finished seen r
      → Progress table t r r'
      → Finished seen r'
  Finished-Progress seen r r' h (more, new) name lines found out known =
      elim (Bool-cases (is_defined (t.guarded name lines found).guard r)) [
        | inl before ↦ λ line m. more line (h name lines found out before line m)
        | inr later ↦ new name lines found later known
      ]

  -- What including a header that is in order comes to.
  abbrev pub Includes : (String → Bool) → List String → (String → Reading → Run Reading) → Type 0
  Includes clear seen enter =
      (name : String) (r r' : Reading)
      → clear name ≡ true
      → Finished seen r
      → Scoped r.declared
      → is_active r ≡ true
      → enter name r ≡ done r'
      → Scoped r'.declared × Offers (provided table name) r'

  known_name :
      (line : Line) (names : List String) (r : Reading)
      → all_of (λ name. elem name (compiler_names ++ names)) (uses line) ≡ true
      → Offers names r
      → (name : String) → Memᴰ name (uses line)
      → Memᴰ name compiler_names ⊎ Offered name r.declared
  known_name line names r h offers name m =
      ⊎_elim inl (λ n. inr (offers name n))
        (Memᴰ.append_cases compiler_names (
          elem-Mem name (compiler_names ++ names)
            (all_of-Mem (λ name. elem name (compiler_names ++ names)) (uses line) name h m)))

  emitted-Scoped :
      (line : Line) (names : List String) (r s : Reading)
      → all_of (λ name. elem name (compiler_names ++ names)) (uses line) ≡ true
      → Offers names r
      → Scoped r.declared
      → done (if is_active r then record r { declared = line ∷ r.declared } else r) ≡ done s
      → Scoped s.declared
  unfolding Scoped
  emitted-Scoped line names r s h offers scoped e =
      from_done (λ x. Scoped x.declared) (go (is_active r)) e
    where
      go : (b : Bool) → Scoped (if b then record r { declared = line ∷ r.declared } else r).declared
      go true = (known_name line names r h offers, scoped)
      go false = scoped

  if-Scoped :
      (b : Bool) (r r' : Reading)
      → Scoped r.declared
      → Scoped r'.declared
      → Scoped (if b then r' else r).declared
  if-Scoped true r r' h h' = h'
  if-Scoped false r r' h h' = h

  module _ (clear : String → Bool) (seen : List String) (enter : String → Reading → Run Reading)
      (includes : Includes clear seen enter) where
    include-Scoped :
        (b : Bool) (name : String) (r s : Reading)
        → is_active r ≡ b
        → clear name ≡ true
        → Finished seen r
        → Scoped r.declared
        → (if b then enter name r else done r) ≡ done s
        → Scoped s.declared
    include-Scoped true name r s a c f h e = (includes name r s c f h a e).0
    include-Scoped false name r s a c f h e = from_done (λ x. Scoped x.declared) h e

    pub read_line-Scoped :
        (line : Line) (names : List String) (r s : Reading)
        → line_scoped (provided table) clear line names ≡ true
        → Offers names r
        → Finished seen r
        → Scoped r.declared
        → read_line enter line r ≡ done s
        → Scoped s.declared
    unfolding read_line
    read_line-Scoped (Line.ifndef n) names r s l o f h e = from_done (λ x. Scoped x.declared) h e
    read_line-Scoped (Line.ifdef n) names r s l o f h e = from_done (λ x. Scoped x.declared) h e
    read_line-Scoped Line.otherwise names r s l o f h e = from_done (λ x. Scoped x.declared) h e
    read_line-Scoped Line.endif names r s l o f h e = from_done (λ x. Scoped x.declared) h e
    read_line-Scoped (Line.include n) names r s l o f h e =
        include-Scoped (is_active r) n r s refl l f h e
    read_line-Scoped (Line.include_next n) names r s l o f h e =
        from_done (λ x. Scoped x.declared) h e
    read_line-Scoped (Line.define_empty n) names r s l o f h e =
        from_done (λ x. Scoped x.declared) (if-Scoped (is_active r) r _ h h) e
    read_line-Scoped (Line.define n x) names r s l o f h e =
        from_done (λ x. Scoped x.declared) (if-Scoped (is_active r) r _ h h) e
    read_line-Scoped (Line.define_call n p x) names r s l o f h e =
        from_done (λ x. Scoped x.declared) (if-Scoped (is_active r) r _ h h) e
    read_line-Scoped Line.extern_c names r s l o f h e = emitted-Scoped _ names r s l o h e
    read_line-Scoped Line.close_extern_c names r s l o f h e = emitted-Scoped _ names r s l o h e
    read_line-Scoped (Line.typedef n t) names r s l o f h e = emitted-Scoped _ names r s l o h e
    read_line-Scoped (Line.struct n fs) names r s l o f h e = emitted-Scoped _ names r s l o h e
    read_line-Scoped (Line.typedef_struct n fs) names r s l o f h e =
        emitted-Scoped _ names r s l o h e
    read_line-Scoped (Line.opaque n) names r s l o f h e = emitted-Scoped _ names r s l o h e
    read_line-Scoped (Line.variable n t) names r s l o f h e = emitted-Scoped _ names r s l o h e
    read_line-Scoped (Line.declare p) names r s l o f h e = emitted-Scoped _ names r s l o h e

    pub Offers-more :
        (names : List String) (r s : Reading)
        → Progress table t r s
        → Offers names r
        → Offers names s
    Offers-more names r s p o name m = Offered-more name r.declared s.declared p.0 (o name m)

    Offers-given :
        (line : Line) (given : String) (names : List String) (s : Reading)
        → gives line ≡ some given
        → Memᴰ line s.declared
        → Offers names s
        → Offers (given ∷ names) s
    Offers-given line given names s g d o name m =
        ⊎_elim (λ e. (line, d, g ∙ ap some (sym e))) (o name) (Memᴰ.cases_cons m)

    -- The names that are there after a line that is read.
    pub read_line-Offers :
        (line : Line) (names : List String) (r s : Reading)
        → is_active r ≡ true
        → line_scoped (provided table) clear line names ≡ true
        → Finished seen r
        → Scoped r.declared
        → (Memᴰ line s.declared ⊎ (is_declaration line ≡ false))
        → Offers names s
        → read_line enter line r ≡ done s
        → Offers (offered (provided table) clear line names) s
    unfolding read_line
    read_line-Offers (Line.include n) names r s a l f h d o e =
        let included = (includes n r s l f h a (rw a at e)).1 in
        λ name m. ⊎_elim (included name) (o name) (Memᴰ.append_cases (provided table n) m)
    read_line-Offers (Line.typedef n x) names r s a l f h (inl d) o e =
        Offers-given _ n names s refl d o
    read_line-Offers (Line.typedef n x) names r s a l f h (inr d) o e = cc
    read_line-Offers (Line.typedef_struct n x) names r s a l f h (inl d) o e =
        Offers-given _ n names s refl d o
    read_line-Offers (Line.typedef_struct n x) names r s a l f h (inr d) o e = cc
    read_line-Offers (Line.opaque n) names r s a l f h (inl d) o e =
        Offers-given _ n names s refl d o
    read_line-Offers (Line.opaque n) names r s a l f h (inr d) o e = cc
    read_line-Offers (Line.ifndef n) names r s a l f h d o e = o
    read_line-Offers (Line.ifdef n) names r s a l f h d o e = o
    read_line-Offers Line.otherwise names r s a l f h d o e = o
    read_line-Offers Line.endif names r s a l f h d o e = o
    read_line-Offers (Line.include_next n) names r s a l f h d o e = o
    read_line-Offers (Line.define_empty n) names r s a l f h d o e = o
    read_line-Offers (Line.define n x) names r s a l f h d o e = o
    read_line-Offers (Line.define_call n p x) names r s a l f h d o e = o
    read_line-Offers Line.extern_c names r s a l f h d o e = o
    read_line-Offers Line.close_extern_c names r s a l f h d o e = o
    read_line-Offers (Line.struct n fs) names r s a l f h d o e = o
    read_line-Offers (Line.variable n x) names r s a l f h d o e = o
    read_line-Offers (Line.declare p) names r s a l f h d o e = o
