-- ===== src/Sysroot/Preprocess/Depth.antt =====
-- How deep the headers of a table include one another.
use dprint_clang_format.Sysroot.Preprocess.{
  is_active, find_in, read_header, read_lines, read_line, Reading,
}
use dprint_clang_format.Base.{
  Run, done, and_left, and_right, if◌then◌else◌, Option-cases, ℕ, zero, suc, ◌≡◌, refl, inl, inr,
  Bool, true, false, ◌&&◌, Option, none, some, List, [], ◌∷◌,
}
use Prim.Native.String.{String}
use dprint_clang_format.Sysroot.Syntax.{Line}

abbrev line_within : (String → Bool) → Line → Bool
line_within within (Line.include name) = within name
line_within within line = true

abbrev lines_within : (String → Bool) → List Line → Bool
lines_within within [] = true
lines_within within (line ∷ lines) = line_within within line && lines_within within lines

abbrev pub found_within : (String → Bool) → Option (List Line) → Bool
found_within within none = true
found_within within (some lines) = lines_within within lines

-- Whether the header, with what it includes, is at most `depth` headers deep.
unfoldable pub is_within : List (String × List Line) → ℕ → String → Bool
is_within table zero name = false
is_within table (suc depth) name = found_within (is_within table depth) (find_in name table)

abbrev pub Ends : Run Reading → Type 0
Ends x = (r : Reading) × (x ≡ done r)

module _ (enter : String → Reading → Run Reading) (within : String → Bool)
    (h : (name : String) (r : Reading) → within name ≡ true → Ends (enter name r)) where
  if_Ends :
      (b : Bool) (name : String) (r : Reading)
      → within name ≡ true
      → Ends (if b then enter name r else done r)
  if_Ends true name r w = h name r w
  if_Ends false name r w = (r, refl)

  read_line-Ends :
      (line : Line) (r : Reading) → line_within within line ≡ true → Ends (read_line enter line r)
  unfolding read_line
  read_line-Ends (Line.ifndef n) r w = (_, refl)
  read_line-Ends (Line.ifdef n) r w = (_, refl)
  read_line-Ends Line.otherwise r w = (_, refl)
  read_line-Ends Line.endif r w = (_, refl)
  read_line-Ends (Line.include n) r w = if_Ends (is_active r) n r w
  read_line-Ends (Line.include_next n) r w = (_, refl)
  read_line-Ends (Line.define_empty n) r w = (_, refl)
  read_line-Ends (Line.define n x) r w = (_, refl)
  read_line-Ends (Line.define_call n p x) r w = (_, refl)
  read_line-Ends Line.extern_c r w = (_, refl)
  read_line-Ends Line.close_extern_c r w = (_, refl)
  read_line-Ends (Line.typedef n t) r w = (_, refl)
  read_line-Ends (Line.struct n fs) r w = (_, refl)
  read_line-Ends (Line.typedef_struct n fs) r w = (_, refl)
  read_line-Ends (Line.opaque n) r w = (_, refl)
  read_line-Ends (Line.variable n t) r w = (_, refl)
  read_line-Ends (Line.declare p) r w = (_, refl)

  read_lines-Ends :
      (lines : List Line) (r : Reading)
      → lines_within within lines ≡ true
      → Ends (read_lines enter lines r)
  unfolding read_lines
  read_lines-Ends [] r w = (r, refl)
  read_lines-Ends (line ∷ lines) r w =
      let (s, first) = read_line-Ends line r (and_left (line_within within line) _ w) in
      let (t, others) = read_lines-Ends lines s (and_right (line_within within line) _ w) in
      (t, rw (first, others))

pub read_header-Ends :
    (table : List (String × List Line)) (depth : ℕ) (name : String) (r : Reading)
    → is_within table depth name ≡ true
    → Ends (read_header table depth name r)
unfolding is_within read_header
read_header-Ends table zero name r w = cc
read_header-Ends table (suc depth) name r w = elim (Option-cases (find_in name table)) [
  | inl absent ↦ (r, rw absent)
  | inr (lines, found) ↦
      let (t, e) =
        read_lines-Ends (read_header table depth) (is_within table depth)
          (read_header-Ends table depth) lines r (rw found at w) in
      (t, rw (found, e))
]
