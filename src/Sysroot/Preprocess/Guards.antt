-- ===== src/Sysroot/Preprocess/Guards.antt =====
-- What a line of a header does to the conditionals that are open, and headers that one conditional
-- encloses from the first line to the last.
use Prim.Native.String.{String}
use text.Mathlib.Text.{◌==◌}
use text.Mathlib.TextEquality.{eq_iff}
use dprint_clang_format.Base.{
  Bool-cases, inl, inr, ℕ, zero, suc, Bool, true, false, Option, none, some, List, [], ◌∷◌, ◌++◌,
  Run, done, ◌≡◌, refl, replicate,
}
use dprint_clang_format.Sysroot.Syntax.{Line}
use dprint_clang_format.Sysroot.Preprocess.{
  Branch, untaken, skipped, Reading, is_active, active_in, flipped, closed, read_line, read_lines,
}

pub data Effect : Type 0 where
  opens flips closes keeps : Effect

abbrev pub effect : Line → Effect
effect (Line.ifndef name) = opens
effect (Line.ifdef name) = opens
effect Line.otherwise = flips
effect Line.endif = closes
effect line = keeps

-- The conditionals after a line, where one that it opens is `branch`.
abbrev pub after : Effect → Branch → List Branch → List Branch
after opens branch branches = branch ∷ branches
after flips branch branches = flipped branches
after closes branch branches = closed branches
after keeps branch branches = branches

abbrev pub is_nil : List Line → Bool
is_nil [] = true
is_nil (line ∷ lines) = false

abbrev pub wraps_by : Effect → ℕ → Bool → (ℕ → Bool) → Bool
wraps_by opens depth last rest = rest (suc depth)
wraps_by keeps depth last rest = rest depth
wraps_by flips zero last rest = false
wraps_by flips (suc depth) last rest = rest (suc depth)
wraps_by closes zero last rest = last
wraps_by closes (suc depth) last rest = rest depth

-- The lines, inside `depth` conditionals of their own and one around them all, close that one with the
-- last of them and not before, and it has no `#else`.
unfoldable pub wraps : List Line → ℕ → Bool
wraps [] depth = false
wraps (line ∷ lines) depth = wraps_by (effect line) depth (is_nil lines) (wraps lines)

-- A header that one conditional encloses, which is left out from the second time on.
pub record IsGuarded (lines : List Line) : Type 0 where
  pub guard : String
  pub rest : List Line
  pub shape : lines ≡ Line.ifndef guard ∷ (Line.define_empty guard ∷ rest)
  pub wrapped : wraps rest 0 ≡ true

opening : (line : Line) → Option ((guard : String) × (line ≡ Line.ifndef guard))
opening (Line.ifndef guard) = some (guard, refl)
opening line = none

marking : (line : Line) → Option ((guard : String) × (line ≡ Line.define_empty guard))
marking (Line.define_empty guard) = some (guard, refl)
marking line = none

enclosing :
    (first second : Line) (rest : List Line)
    → Option ((guard : String) × (first ≡ Line.ifndef guard))
    → Option ((guard : String) × (second ≡ Line.define_empty guard))
    → Option (IsGuarded (first ∷ (second ∷ rest)))
enclosing first second rest none m = none
enclosing first second rest (some o) none = none
enclosing first second rest (some (guard, o)) (some (name, m)) = elim (Bool-cases (guard == name)) [
  | inr e ↦ none
  | inl e ↦ elim (Bool-cases (wraps rest 0)) [
    | inr f ↦ none
    | inl f ↦ some (record {
      guard = guard;
      rest = rest;
      shape = rw (o, m, (eq_iff guard name).0 e);
      wrapped = f;
    })
  ]
]

-- The test, with its proof.
unfoldable pub as_guarded : (lines : List Line) → Option (IsGuarded lines)
unfolding wraps opening marking enclosing
as_guarded [] = none
as_guarded (line ∷ []) = none
as_guarded (first ∷ (second ∷ rest)) = enclosing first second rest (opening first) (marking second)

module _ (enter : String → Reading → Run Reading) where
  pub read_nil :
      (lines : List Line) (r : Reading) → is_nil lines ≡ true → read_lines enter lines r ≡ done r
  unfolding read_lines
  read_nil [] r e = refl
  read_nil (line ∷ lines) r e = cc

  -- A line among lines that are not read.
  read_line-inactive :
      (line : Line) (r : Reading)
      → is_active r ≡ false
      → read_line enter line r
        ≡ done (record r { branches = after (effect line) skipped r.branches })
  unfolding read_line
  read_line-inactive (Line.ifndef n) r e = rw e
  read_line-inactive (Line.ifdef n) r e = rw e
  read_line-inactive Line.otherwise r e = refl
  read_line-inactive Line.endif r e = refl
  read_line-inactive (Line.include n) r e = rw e
  read_line-inactive (Line.include_next n) r e = refl
  read_line-inactive (Line.define_empty n) r e = rw e
  read_line-inactive (Line.define n x) r e = rw e
  read_line-inactive (Line.define_call n p x) r e = rw e
  read_line-inactive Line.extern_c r e = rw e
  read_line-inactive Line.close_extern_c r e = rw e
  read_line-inactive (Line.typedef n t) r e = rw e
  read_line-inactive (Line.struct n fs) r e = rw e
  read_line-inactive (Line.typedef_struct n fs) r e = rw e
  read_line-inactive (Line.opaque n) r e = rw e
  read_line-inactive (Line.variable n t) r e = rw e
  read_line-inactive (Line.declare p) r e = rw e

  inactive-below :
      (depth : ℕ) (rest : List Branch)
      → active_in (replicate depth skipped ++ (untaken ∷ rest)) ≡ false
  inactive-below zero rest = refl
  inactive-below (suc depth) rest = refl

  abbrev below : ℕ → List Branch → List Branch
  below depth rest = replicate depth skipped ++ (untaken ∷ rest)

  skip_by_effect :
      (e : Effect) (depth : ℕ) (lines : List Line) (r : Reading) (rest : List Branch)
      → wraps_by e depth (is_nil lines) (wraps lines) ≡ true
      → ((d : ℕ)
          → wraps lines d ≡ true
          → read_lines enter lines (record r { branches = below d rest })
            ≡ done (record r { branches = rest }))
      → read_lines enter lines (record r { branches = after e skipped (below depth rest) })
        ≡ done (record r { branches = rest })
  skip_by_effect opens depth lines r rest w ih = ih (suc depth) w
  skip_by_effect keeps depth lines r rest w ih = ih depth w
  skip_by_effect flips zero lines r rest w ih = cc
  skip_by_effect flips (suc depth) lines r rest w ih = ih (suc depth) w
  skip_by_effect closes zero lines r rest w ih = read_nil lines (record r { branches = rest }) w
  skip_by_effect closes (suc depth) lines r rest w ih = ih depth w

  -- Where the enclosing conditional is not read, nothing in it is.
  pub skip_lines :
      (lines : List Line) (depth : ℕ) (r : Reading) (rest : List Branch)
      → wraps lines depth ≡ true
      → read_lines enter lines (record r { branches = below depth rest })
        ≡ done (record r { branches = rest })
  unfolding wraps read_lines
  skip_lines [] depth r rest w = cc
  skip_lines (line ∷ lines) depth r rest w =
      rw
        (read_line-inactive line (record r { branches = below depth rest })
          (inactive-below depth rest))
        (skip_by_effect (effect line) depth lines r rest w (λ d. skip_lines lines d r rest))
