-- ===== src/Sysroot/Values.antt =====
-- The object-like macros of the headers under support/wasm-sysroot/include: what each stands for.

use dprint_clang_format.Base.{
  is_yes, from_yes, Run, done, and_left, and_right, if◌then◌else◌, Bool-cases, Option-cases, ℕ,
  zero, suc, sym, ap, ◌≢◌, inl, inr, ◌≡◌, refl, Bool, true, false, ◌&&◌, Option, none, some, List,
  [], ◌∷◌, ◌++◌,
}
use native.Mathlib.Decide.{ℕ_discrete}
use Prim.Native.String.{String}
use text.Mathlib.TextEquality.{eq_iff}
use text.Mathlib.Text.{◌==◌}
use dprint_clang_format.Sysroot.Syntax.{
  decided, Ctype-discrete, String-discrete, Line, Expr, Expr-discrete,
}
use dprint_clang_format.Sysroot.Headers.{sysroot}
use dprint_clang_format.Sysroot.Preprocess.{
  Macro, object, find_in, read_header, read_lines, read_line, Reading, is_active,
}
use dprint_clang_format.Sysroot.Preprocess.Later.{split_then, from_done}
use dprint_clang_format.Sysroot.Table.{every, every-found, some_inner}

abbrev with_object : Line → List (String × Expr) → List (String × Expr)
with_object (Line.define name body) objects = (name, body) ∷ objects
with_object line objects = objects

unfoldable pub objects_of : List Line → List (String × Expr)
objects_of [] = []
objects_of (line ∷ lines) = with_object line (objects_of lines)

unfoldable pub objects_in : List (String × List Line) → List (String × Expr)
objects_in [] = []
objects_in ((name, lines) ∷ entries) = objects_of lines ++ objects_in entries

-- An object-like macro of the sysroot, and what it stands for where it is found first.
unfoldable pub value_of : String → Option Expr
unfolding objects_in sysroot
value_of name = find_in name (objects_in sysroot)

unfoldable is_value : String → Expr → Option Expr → Bool
is_value name body none = false
is_value name body (some e) = is_yes (Expr-discrete e body)

unfoldable line_agrees : Line → Bool
unfolding is_value value_of
line_agrees (Line.define name body) = is_value name body (value_of name)
line_agrees line = true

unfoldable lines_agree : List Line → Bool
lines_agree [] = true
lines_agree (line ∷ lines) = line_agrees line && lines_agree lines

all_agree : every (λ k. lines_agree) sysroot ≡ true
unfolding every sysroot lines_agree line_agrees is_value value_of objects_in objects_of
    Expr-discrete Ctype-discrete String-discrete decided ℕ_discrete
all_agree = refl

is_value_sound :
    (name : String) (body : Expr) (o : Option Expr) → is_value name body o ≡ true → o ≡ some body
unfolding is_value
is_value_sound name body none h = cc
is_value_sound name body (some e) h = ap some (from_yes (Expr-discrete e body) h)

-- Each object-like macro stands for what the sysroot has for it.
abbrev pub HasValues : Reading → Type 0
HasValues r = (k : String) (e : Expr) → find_in k r.macros ≡ some (object e) → value_of k ≡ some e

object_inner : {e e' : Expr} → object e ≡ object e' → e ≡ e'
object_inner p = cc

HasValues-object :
    (name : String) (body : Expr) (r : Reading)
    → value_of name ≡ some body
    → HasValues r
    → HasValues (record r { macros = (name, object body) ∷ r.macros })
HasValues-object name body r v h k e q = elim (Bool-cases (name == k)) [
  | inl hit ↦ rw (sym (object_inner (some_inner (rw hit at q))), sym ((eq_iff name k).0 hit)) v
  | inr other ↦ h k e (rw other at q)
]

HasValues-other :
    (name : String) (macro : Macro) (r : Reading)
    → ((e : Expr) → macro ≢ object e)
    → HasValues r
    → HasValues (record r { macros = (name, macro) ∷ r.macros })
HasValues-other name macro r apart h k e q = elim (Bool-cases (name == k)) [
  | inl hit ↦ absurd (apart e (some_inner (rw hit at q)))
  | inr other ↦ h k e (rw other at q)
]

if_has : (b : Bool) (r r' : Reading) → HasValues r → HasValues r' → HasValues (if b then r' else r)
if_has true r r' h h' = h'
if_has false r r' h h' = h

module _ (enter : String → Reading → Run Reading)
    (keeps : (name : String) (r r' : Reading)
      → HasValues r
      → enter name r ≡ done r'
      → HasValues r') where
  if_enters :
      (b : Bool) (name : String) (r r' : Reading)
      → HasValues r
      → (if b then enter name r else done r) ≡ done r'
      → HasValues r'
  if_enters true name r r' h e = keeps name r r' h e
  if_enters false name r r' h e = from_done HasValues h e

  line_keeps :
      (line : Line) (r r' : Reading)
      → line_agrees line ≡ true
      → HasValues r
      → read_line enter line r ≡ done r'
      → HasValues r'
  unfolding read_line line_agrees
  line_keeps (Line.ifndef n) r r' v h e = from_done HasValues h e
  line_keeps (Line.ifdef n) r r' v h e = from_done HasValues h e
  line_keeps Line.otherwise r r' v h e = from_done HasValues h e
  line_keeps Line.endif r r' v h e = from_done HasValues h e
  line_keeps (Line.include n) r r' v h e = if_enters (is_active r) n r r' h e
  line_keeps (Line.include_next n) r r' v h e = from_done HasValues h e
  line_keeps (Line.define_empty n) r r' v h e =
      from_done HasValues (if_has (is_active r) r _ h (HasValues-other n _ r (λ x q. cc) h)) e
  line_keeps (Line.define n x) r r' v h e =
      from_done HasValues
        (if_has (is_active r) r _ h (HasValues-object n x r (is_value_sound n x (value_of n) v) h))
        e
  line_keeps (Line.define_call n p x) r r' v h e =
      from_done HasValues (if_has (is_active r) r _ h (HasValues-other n _ r (λ x q. cc) h)) e
  line_keeps Line.extern_c r r' v h e = from_done HasValues (if_has (is_active r) r _ h h) e
  line_keeps Line.close_extern_c r r' v h e = from_done HasValues (if_has (is_active r) r _ h h) e
  line_keeps (Line.typedef n t) r r' v h e = from_done HasValues (if_has (is_active r) r _ h h) e
  line_keeps (Line.struct n fs) r r' v h e = from_done HasValues (if_has (is_active r) r _ h h) e
  line_keeps (Line.typedef_struct n fs) r r' v h e =
      from_done HasValues (if_has (is_active r) r _ h h) e
  line_keeps (Line.opaque n) r r' v h e = from_done HasValues (if_has (is_active r) r _ h h) e
  line_keeps (Line.variable n t) r r' v h e = from_done HasValues (if_has (is_active r) r _ h h) e
  line_keeps (Line.declare p) r r' v h e = from_done HasValues (if_has (is_active r) r _ h h) e

  lines_keep :
      (lines : List Line) (r r' : Reading)
      → lines_agree lines ≡ true
      → HasValues r
      → read_lines enter lines r ≡ done r'
      → HasValues r'
  unfolding read_lines lines_agree
  lines_keep [] r r' v h e = from_done HasValues h e
  lines_keep (line ∷ lines) r r' v h e =
      let (s, first, others) = split_then (read_line enter line r) (read_lines enter lines) r' e in
      lines_keep lines s r' (and_right (line_agrees line) _ v)
        (line_keeps line r s (and_left (line_agrees line) _ v) h first) others

-- Whatever headers were read in whatever order, an object-like macro has the same value.
pub read_header-HasValues :
    (depth : ℕ) (name : String) (r r' : Reading)
    → HasValues r
    → read_header sysroot depth name r ≡ done r'
    → HasValues r'
unfolding read_header
read_header-HasValues zero name r r' h e = cc
read_header-HasValues (suc depth) name r r' h e = elim (Option-cases (find_in name sysroot)) [
  | inl absent ↦ from_done HasValues h (rw absent at e)
  | inr (lines, found) ↦
      lines_keep (read_header sysroot depth) (read_header-HasValues depth) lines r r'
        (every-found (λ k. lines_agree) sysroot name lines all_agree found) h (rw found at e)
]
